-- ===== src/Connection/Lost.antt =====
-- parser/connection.go: what Disconnect does to the lines that the writer still has.
pub mod Part
use mathlib.Core.Path.{subst}
use ircparser.Base.{
  ◌≡◌, ◌≢◌, ◌⊎◌, inl, inr, refl, sym, ap, ◌∙◌, Bool, true, false, List, [], ◌∷◌, ◌++◌, Bytes,
  Option, none, some, append_assoc, append-nil, if◌then◌else◌,
}
use ircparser.Connection.{
  Connection, Network, connect, disconnect, send_raw, write_round, flush, emit,
}
use ircparser.Connection.Socket.{wire, round-Reads, raw-Takes}
use ircparser.Connection.Lifecycle.{
  Step, Steps, dials, connects, closes, disconnects, reads, flushes, sends, stays, goes,
}
use Part.{IsPart, IsPart-front, IsPart-append}

-- Since the connection was `c`, these lines were written; what has been flushed or is still in the
-- writer of an open socket is a part of them.
abbrev Behind : Connection → Bool → List Bytes → List Bytes → List Bytes → Type 0
Behind c alive written buffered flushed =
    (new later : List Bytes) × (written ≡ c.written ++ new)
    × (flushed ≡ c.flushed ++ later)
    × IsPart (later ++ (if alive then buffered else [])) new

module _ (c : Connection) where
  Behind-closed :
      (alive : Bool) (written buffered flushed : List Bytes)
      → Behind c alive written buffered flushed
      → (left : List Bytes) → Behind c false written left flushed
  Behind-closed alive written buffered flushed (new, later, w, f, part) left = (
    new,
    later,
    w,
    f,
    subst (λ r. IsPart r new) (sym (append-nil later)) (IsPart-front later _ new part),
  )

  -- A new writer, whose buffer is empty.
  Behind-connected :
      (alive : Bool) (written buffered flushed : List Bytes)
      → Behind c alive written buffered flushed
      → Behind c true written [] flushed
  Behind-connected alive written buffered flushed h =
      Behind-closed alive written buffered flushed h []

  Behind-flushed :
      (written buffered flushed : List Bytes)
      → Behind c true written buffered flushed
      → Behind c true written [] (flushed ++ buffered)
  Behind-flushed written buffered flushed (new, later, w, f, part) = (
    new,
    later ++ buffered,
    w,
    ap (λ r. r ++ buffered) f ∙ append_assoc c.flushed later buffered,
    subst (λ r. IsPart r new) (sym (append-nil (later ++ buffered))) part,
  )

  Behind-taken :
      (alive : Bool) (written buffered flushed pieces : List Bytes)
      → Behind c alive written buffered flushed
      → Behind c alive (written ++ pieces) (buffered ++ pieces) flushed
  Behind-taken true written buffered flushed pieces (new, later, w, f, part) = (
    new ++ pieces,
    later,
    ap (λ r. r ++ pieces) w ∙ append_assoc c.written new pieces,
    f,
    subst (λ r. IsPart r (new ++ pieces)) (append_assoc later buffered pieces)
        (IsPart-append (later ++ buffered) new pieces part),
  )
  Behind-taken false written buffered flushed pieces (new, later, w, f, part) = (
    new ++ pieces,
    later,
    ap (λ r. r ++ pieces) w ∙ append_assoc c.written new pieces,
    f,
    IsPart-front (later ++ []) pieces (new ++ pieces) (IsPart-append (later ++ []) new pieces part),
  )

  abbrev Since : Connection → Type 0
  Since d = Behind c d.alive d.written d.buffered d.flushed

  Since-wire : (d d' : Connection) → wire d' ≡ wire d → Since d → Since d'
  Since-wire d d' same h = subst (λ s. Behind c s.1 s.2 s.3 s.4) (sym same) h

module _ (net : Network) where
  flush-Since : (c d : Connection) → Since c d → Since c (flush net d)
  unfolding flush
  flush-Since c d h = go d.alive refl (net.flush_error d.buffered) refl
    where
      known : (b : Bool) → d.alive ≡ b → Behind c b d.written d.buffered d.flushed
      known b a = subst (λ b. Behind c b d.written d.buffered d.flushed) a h

      go :
          (b : Bool)
          → d.alive ≡ b
          → (o : Option Bytes) → net.flush_error d.buffered ≡ o
          → Since c (flush net d)
      go false a o e = rw a (known false a)
      go true a (some text) e =
          let same : flush net d ≡ d = simp (a, e) in subst (Since c) (sym same) h
      go true a none e =
          let same : flush net d ≡ record d { buffered = []; flushed = d.flushed ++ d.buffered } =
            simp (a, e) in
          subst (Since c) (sym same) (
            subst (λ b. Behind c b d.written [] (d.flushed ++ d.buffered)) (sym a)
              (Behind-flushed c d.written d.buffered d.flushed (known true a)))

  round-Since : (c d : Connection) (tick : Bool) → Since c d → Since c (write_round net tick d).0
  unfolding write_round
  round-Since c d false h = h
  round-Since c d true h = go d.opened
    where
      go :
          (b : Bool)
          → Since c (if◌then◌else◌ {A = Connection × Bool} b (flush net d, true) (d, true)).0
      go true = flush-Since c d h
      go false = h

  Step-Since : (b : Connection) {c d : Connection} → Step net c d → Since b c → Since b d
  unfolding connect disconnect emit
  Step-Since b (dials c) h = h
  Step-Since b (connects c) h = go (net.dial c.config) refl
    where
      go : (o : Option Bytes) → net.dial c.config ≡ o → Since b (connect net c).0
      go none e = rw (connect, e) (Behind-connected b c.alive c.written c.buffered c.flushed h)
      go (some text) e = rw (connect, e) h
  Step-Since b (closes c) h = h
  Step-Since b (disconnects c) h =
      Behind-closed b c.alive c.written c.buffered c.flushed h c.buffered
  Step-Since b (reads c c' input goes_on o e) h = elim (round-Reads net c c' input goes_on e) [
    | inl same ↦ Since-wire b c c' same h
    | inr closed ↦
        Since-wire b (record c { alive = false }) c' closed
          (Behind-closed b c.alive c.written c.buffered c.flushed h c.buffered)
  ]
  Step-Since b (flushes c tick) h = round-Since b c tick h
  Step-Since b (sends c line) h =
      let (pieces, took) = raw-Takes net c line in
      Since-wire b (record c { written = c.written ++ pieces; buffered = c.buffered ++ pieces })
        (send_raw net c line).0 took
        (Behind-taken b c.alive c.written c.buffered c.flushed pieces h)

  Steps-Since : (b : Connection) {c d : Connection} → Steps net c d → Since b c → Since b d
  Steps-Since b (stays c) h = h
  Steps-Since b (goes s t) h = Steps-Since b t (Step-Since b s h)

  -- Disconnect does not flush, and nothing does behind it: a line that is sent and followed by a
  -- Disconnect before the next round of the write loop is never flushed, whatever happens to the
  -- connection later. All that a Flush passes on behind it, on a new connection, has been written
  -- later: `later` is a part, in the same order, of the lines `new` that were written behind the
  -- Disconnect.
  pub unflushed :
      (c d : Connection) (line : Bytes)
      → Steps net (disconnect (send_raw net c line).0) d
      → (new later : List Bytes) × (d.written ≡ (send_raw net c line).0.written ++ new)
        × (d.flushed ≡ c.flushed ++ later)
        × IsPart later new
  unfolding disconnect emit
  unflushed c d line steps =
      let s = (send_raw net c line).0 in
      let kept = (raw-Takes net c line).1 in
      let (new, later, w, f, part) =
        Steps-Since s steps
          ([], [], sym (append-nil s.written), sym (append-nil s.flushed), refl) in
      (
        new,
        later,
        w,
        f ∙ ap (λ r. r ++ later) (ap (λ t. t.4) kept),
        IsPart-front later (if d.alive then d.buffered else []) new part,
      )
