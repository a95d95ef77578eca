-- ===== src/Session/Log.antt =====
-- The lines in the log of a session, which grows by what each call put out.
use ircparser.Base.{
  ◌≡◌, refl, sym, ap, ◌∙◌, List, [], ◌∷◌, ◌++◌, map, append_assoc, append-nil, Bytes,
}
use ircparser.Output.{Output, sent, refused, emitted}
use ircparser.Session.{sent_lines}

sent_lines-++ : (o p : List Output) → sent_lines (o ++ p) ≡ sent_lines o ++ sent_lines p
unfolding sent_lines
sent_lines-++ [] p = refl
sent_lines-++ (sent line ∷ o) p = ap (λ r. line ∷ r) (sent_lines-++ o p)
sent_lines-++ (refused line ∷ o) p = sent_lines-++ o p
sent_lines-++ (emitted t body ∷ o) p = sent_lines-++ o p

pub sent_lines-map : (lines : List (List Bytes)) → sent_lines (map sent lines) ≡ lines
unfolding sent_lines
sent_lines-map [] = refl
sent_lines-map (line ∷ lines) = ap (λ r. line ∷ r) (sent_lines-map lines)

-- The log behind calls with these outputs.
abbrev pub grown : List Output → List (List Output) → List Output
grown log [] = log
grown log (o ∷ os) = grown (log ++ o) os

abbrev pub all_lines : List (List Output) → List (List Bytes)
all_lines [] = []
all_lines (o ∷ os) = sent_lines o ++ all_lines os

pub sent_lines-grown :
    (log : List Output) (os : List (List Output))
    → sent_lines (grown log os) ≡ sent_lines log ++ all_lines os
sent_lines-grown log [] = sym (append-nil (sent_lines log))
sent_lines-grown log (o ∷ os) =
    sent_lines-grown (log ++ o) os
    ∙ ap (λ r. r ++ all_lines os) (sent_lines-++ log o)
    ∙ append_assoc (sent_lines log) (sent_lines o) (all_lines os)
