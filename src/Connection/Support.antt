-- ===== src/Connection/Support.antt =====
-- parser/connection.go and client/client.go: both keep the tokens of ISUPPORT.
use ircparser.Base.{
  ◌≡◌, refl, ap, ◌∙◌, Bool, true, false, List, [], ◌∷◌, Bytes, if◌then◌else◌, insert, bytes_eq,
  get_or,
}
use ircparser.Text.{contains, split_two}
use ircparser.ServerInfo.{ServerInfo, set_isupport, apply_isupport}
use ircparser.ServerInfo.Support.{apply-isupport}
use ircparser.Client.Names.{apply_token, apply_tokens}
use ircparser.Connection.{set_token, set_tokens}

apply_token-isupport :
    (si : ServerInfo) (param : Bytes)
    → (apply_token si param).isupport ≡ set_token si.isupport param
unfolding apply_token set_token set_isupport
apply_token-isupport si param = if-isupport (contains b'=' param)
  where
    if-isupport :
        (b : Bool)
        → (if b
            then apply_isupport
                (get_or (split_two b'=' param) 0 [])
                (get_or (split_two b'=' param) 1 [])
                (record si {
                  isupport =
                      insert
                        (get_or (split_two b'=' param) 0 [])
                        (get_or (split_two b'=' param) 1 [])
                        si.isupport;
                })
            else apply_isupport param []
                (record si { isupport = insert param [] si.isupport })).isupport
          ≡ (if b
              then insert
                  (get_or (split_two b'=' param) 0 [])
                  (get_or (split_two b'=' param) 1 [])
                  si.isupport
              else insert param [] si.isupport)
    if-isupport true = apply-isupport _ _ _
    if-isupport false = apply-isupport _ _ _

-- The tracking client and the connection keep the same tokens with the same values, if they did
-- before the line.
pub apply_tokens-isupport :
    (si : ServerInfo) (params : List Bytes)
    → (apply_tokens si params).isupport ≡ set_tokens si.isupport params
unfolding apply_tokens set_tokens
apply_tokens-isupport si [] = refl
apply_tokens-isupport si (param ∷ params) =
    apply_tokens-isupport (apply_token si param) params
    ∙ ap (λ m. set_tokens m params) (apply_token-isupport si param)
