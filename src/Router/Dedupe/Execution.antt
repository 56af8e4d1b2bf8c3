-- ===== src/Router/Dedupe/Execution.antt =====
-- What the store of src/router/dedupe.ts promises over a history of calls.
use pi_to_pi.Prelude.{ℕ, ◌+◌, ◌≡◌, inl, inr, if_elim, Bool, false, Option, Option-cases, ok, err}
use pi_to_pi.Protocol.Json.{Value}
use pi_to_pi.Router.Dedupe.{Thrown, producer_raised, Validate, is_busy_result}
use pi_to_pi.Router.Dedupe.Decisions.{StoredRecord, Decision, Reservation}
use pi_to_pi.Router.Dedupe.Store.{DedupeStore, Clock, Answer, reservation}
use pi_to_pi.Router.Dedupe.Commit.{
  Produced, returned, raised, undone, undo, tried, execute_reserved, execute_decided, execute,
}
use pi_to_pi.Router.Dedupe.Retention.{Held}
use pi_to_pi.Router.Dedupe.Calls.{IsLive, reserve-Held, release-Held, busy_after-Held, commit-Held}

module _ (r : StoredRecord) (committed : r.pending ≡ false) (validate : Validate)
    (parse_utc : Value → Option ℕ) where
  pub undone-Held : (a : Answer Bool) (e : Thrown) → Held r a.0 → Held r (undone a e).0
  unfolding undone
  undone-Held (s, err e') e h = h
  undone-Held (s, ok b) e h = h

  pub undo-Held :
      (s : DedupeStore) (x : Reservation) (e : Thrown) (clock : Clock)
      → IsLive r committed clock
      → Held r s
      → Held r (undo validate parse_utc s x e clock).0
  unfolding undo
  undo-Held s x e clock live h =
      undone-Held _ e (release-Held r committed validate parse_utc s (reservation x) clock live h)

  pub tried-Held :
      (a : Answer Decision) (x : Reservation) (clock : Clock)
      → IsLive r committed clock
      → Held r a.0
      → Held r (tried validate parse_utc a x clock).0
  unfolding tried
  tried-Held (s, ok d) x clock live h = h
  tried-Held (s, err e) x clock live h = undo-Held s x e clock live h

  pub execute_reserved-Held :
      (s : DedupeStore) (op : Value) (x : Reservation) (p : Produced) (reference : Value)
      (clock : Clock)
      → IsLive r committed clock
      → Held r s
      → Held r (execute_reserved validate parse_utc s op x p reference clock).0
  unfolding execute_reserved
  execute_reserved-Held s op x raised reference clock live h =
      undo-Held s x producer_raised clock live h
  execute_reserved-Held s op x (returned v) reference clock live h =
      if_elim (λ (a : Answer Decision). Held r a.0) (is_busy_result v)
        (λ _.
          tried-Held _ x _ (λ i. live (2 + i))
            (busy_after-Held r committed validate parse_utc _ op _
              (release-Held r committed validate parse_utc s (reservation x) clock live h)))
        (λ _.
          tried-Held _ x _ (λ i. live (1 + i))
            (commit-Held r committed validate parse_utc s (reservation x) v reference clock live h))

  pub execute_decided-Held :
      (a : Answer Decision) (op : Value) (p : Produced) (reference : Value) (clock : Clock)
      → IsLive r committed clock
      → Held r a.0
      → Held r (execute_decided validate parse_utc a op p reference clock).0
  unfolding execute_decided
  execute_decided-Held (s, err e) op p reference clock live h = h
  execute_decided-Held (s, ok d) op p reference clock live h = elim (Option-cases d.reservation) [
    | inl nothing ↦ rw nothing h
    | inr (x, given) ↦ rw given (execute_reserved-Held s op x p reference clock live h)
  ]

  pub execute-Held :
      (s : DedupeStore) (op : Value) (p : Produced) (reference : Value) (clock : Clock)
      → IsLive r committed clock
      → Held r s
      → Held r (execute validate parse_utc s op p reference clock).0
  unfolding execute
  execute-Held s op p reference clock live h =
      execute_decided-Held _ op p reference _ (λ i. live (3 + i))
        (reserve-Held r committed validate parse_utc s op clock live h)
