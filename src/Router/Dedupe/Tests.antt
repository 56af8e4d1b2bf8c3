-- ===== src/Router/Dedupe/Tests.antt =====
-- Runs of the store of src/router/dedupe.ts on concrete operations.
use pi_to_pi.Prelude.{
  Sifted, length, All, ◌+◌, ℕ, ◌≡◌, refl, ap, leb, if◌then◌else◌, Option, none, some, List, [], ◌∷◌,
  Text, ◌≢◌, codes, ok, err, arith,
}
use pi_to_pi.Prelude.Strings.{text_eq}
use pi_to_pi.Protocol.Json.{Value, undefined, string, object, field, end, get_field}
use pi_to_pi.Protocol.Errors.{expired}
use pi_to_pi.Router.Dedupe.{
  NormalizedOperation, Validate, operation_name, normalized_operation, normalize_named,
  normalize_projection, revalidate, is_dedupe_operation, is_busy_result, make_dedupe_key,
}
use pi_to_pi.Router.Dedupe.Decisions.{
  new_decision, StoredRecord, existing_decision, replay_decision, duplicate_decision,
  stored_decision,
}
use pi_to_pi.Router.Dedupe.Store.{
  remove_record, is_same, reservation_of, DedupeStore, Clock, new_store, new_record, find, prune,
  keep_live, normalize, reserve, reserve_normalized, reserve_found, add_record, schedule, update,
}
use pi_to_pi.Router.Dedupe.Commit.{
  raised, undo, undone, release, release_subject, release_found, settle, execute_decided,
  execute_reserved, commit, commit_open, commit_found, commit_record, tried, returned, execute,
}
use pi_to_pi.Router.Dedupe.Retention.{Held, held}
use pi_to_pi.Router.Dedupe.History.{Call, reserves, apply, run}
use pi_to_pi.Router.Dedupe.Guarantees.{run-replays, run-rejects, AnswersWith}
use pi_to_pi.Router.Dedupe.Keys.{HasNoNul, make_dedupe_key-injective}
use pi_to_pi.Router.Dedupe.Pruning.{IsRetained, IsOver, prune-removes}
use pi_to_pi.Router.Dedupe.Retry.{execute-retries}
use pi_to_pi.Router.Dedupe.Fresh.{execute-stores, execute-replays}

-- A request whose payload is its fingerprint, due at 5000.
abbrev request : Text → Value
request payload = object (
    field (codes "operation") (string (codes "message.request"))
      (field (codes "payload") (string payload) end))

abbrev text_or_empty : Value → Text
text_or_empty (string s) = s
text_or_empty _ = []

abbrev payload_of : Value → Text
payload_of (object fs) = text_or_empty (get_field (codes "payload") fs)
payload_of _ = []

abbrev sample_validate : Validate
sample_validate op now =
    if leb 5000 now
    then err expired
    else ok (record {
      operation_id = codes "op";
      sender_runtime_id = codes "rt";
      expires_at = codes "later";
      fingerprint = payload_of op;
    })

abbrev sample_parse : Value → Option ℕ
sample_parse (string s) = some 5000
sample_parse _ = none

abbrev sample_operation : NormalizedOperation
sample_operation = record {
  subject = record {
    key = make_dedupe_key (codes "rt") (codes "op");
    sender_runtime_id = codes "rt";
    operation_id = codes "op";
    operation = codes "message.request";
    fingerprint = codes "p";
  };
  expires_at = codes "later";
  expires_at_ms = 5000;
  retained_until = 5100;
}

abbrev at_noon : Clock
at_noon i = 20

normalizes :
    (normalize sample_validate sample_parse (new_store 100) (request (codes "p")) 20)
    ≡ ok sample_operation
unfolding normalize normalized_operation normalize_named normalize_projection revalidate
    operation_name is_dedupe_operation new_store make_dedupe_key get_field text_eq
normalizes = refl

abbrev outcome : Value
outcome = string (codes "done")

-- The record that the first execution commits.
abbrev committed : StoredRecord
committed = settle outcome undefined (new_record sample_operation 0)

execute-stores_example :
    let a =
      execute sample_validate sample_parse
        (new_store 100)
        (request (codes "p"))
        (returned outcome)
        undefined
        at_noon in
    (a.1 ≡ ok (stored_decision committed)) × Held committed a.0
unfolding new_store find prune keep_live is_busy_result
execute-stores_example =
    execute-stores sample_validate sample_parse (new_store 100) (request (codes "p")) outcome
      undefined at_noon sample_operation refl (λ i. omega arith) normalizes refl refl

abbrev holding : DedupeStore
holding = record (new_store 100) { records = committed ∷ [] }

holding-Held : Held committed holding
unfolding find settle new_store make_dedupe_key text_eq
holding-Held = held none refl refl

-- Another request with the same key is tried first.
abbrev meanwhile : List (Call × Clock)
meanwhile = (reserves (request (codes "q")), at_noon) ∷ []

normalizes_later :
    (payload : Text)
    → normalize sample_validate sample_parse
        (run sample_validate sample_parse holding meanwhile)
        (request payload)
        20
      ≡ ok (record sample_operation {
        subject = record sample_operation.subject { fingerprint = payload };
      })
unfolding normalize normalized_operation normalize_named normalize_projection revalidate
    operation_name is_dedupe_operation new_store make_dedupe_key get_field text_eq run apply reserve
    reserve_normalized reserve_found find prune keep_live settle existing_decision
normalizes_later payload = refl

run-replays_example :
    AnswersWith sample_validate sample_parse
      (run sample_validate sample_parse holding meanwhile)
      (request (codes "p"))
      at_noon
      (replay_decision committed sample_operation.subject)
unfolding settle
run-replays_example =
    run-replays sample_validate sample_parse committed refl holding meanwhile (request (codes "p"))
      at_noon sample_operation holding-Held ((refl, λ i. omega arith), tt) (λ i. omega arith)
      (normalizes_later (codes "p")) refl refl

q_is_not_p : codes "q" ≢ codes "p"
q_is_not_p e =
    let clash = ap (λ (t : Text). text_eq t (codes "q")) e in absurd (unfold text_eq in cc)

run-rejects_example :
    AnswersWith sample_validate sample_parse
      (run sample_validate sample_parse holding meanwhile)
      (request (codes "q"))
      at_noon
      (duplicate_decision committed (record sample_operation.subject { fingerprint = codes "q" }))
unfolding settle
run-rejects_example =
    run-rejects sample_validate sample_parse committed refl holding meanwhile (request (codes "q"))
      at_noon
      (record sample_operation {
        subject = record sample_operation.subject { fingerprint = codes "q" };
      })
      holding-Held ((refl, λ i. omega arith), tt) (λ i. omega arith) (normalizes_later (codes "q"))
      refl q_is_not_p

normalizes_executed :
    normalize sample_validate sample_parse
      (run sample_validate sample_parse
        (execute sample_validate sample_parse
          (new_store 100)
          (request (codes "p"))
          (returned outcome)
          undefined
          at_noon).0
        meanwhile)
      (request (codes "p"))
      20
    ≡ ok sample_operation
unfolding normalize normalized_operation normalize_named normalize_projection revalidate
    operation_name is_dedupe_operation new_store make_dedupe_key get_field text_eq run apply reserve
    reserve_normalized reserve_found find prune keep_live settle existing_decision execute
    execute_decided execute_reserved commit commit_open commit_found commit_record tried add_record
    schedule update is_busy_result
normalizes_executed = refl

execute-replays_example :
    AnswersWith sample_validate sample_parse
      (run sample_validate sample_parse
        (execute sample_validate sample_parse
          (new_store 100)
          (request (codes "p"))
          (returned outcome)
          undefined
          at_noon).0
        meanwhile)
      (request (codes "p"))
      at_noon
      (replay_decision committed sample_operation.subject)
unfolding new_store find prune keep_live is_busy_result
execute-replays_example =
    execute-replays sample_validate sample_parse (new_store 100) _ (request (codes "p"))
      (request (codes "p")) outcome undefined at_noon at_noon sample_operation sample_operation
      meanwhile refl (λ i. omega arith) normalizes refl refl refl ((refl, λ i. omega arith), tt)
      (λ i. omega arith) normalizes_executed refl refl

normalizes_retried :
    normalize sample_validate sample_parse
      (execute sample_validate sample_parse
        (new_store 100)
        (request (codes "p"))
        raised
        undefined
        at_noon).0
      (request (codes "q"))
      20
    ≡ ok (record sample_operation {
      subject = record sample_operation.subject { fingerprint = codes "q" };
    })
unfolding normalize normalized_operation normalize_named normalize_projection revalidate
    operation_name is_dedupe_operation new_store make_dedupe_key get_field text_eq reserve
    reserve_normalized reserve_found find prune keep_live execute execute_decided execute_reserved
    undo undone release release_subject release_found remove_record is_same add_record schedule
    update
normalizes_retried = refl

execute-retries_example :
    let s =
      (execute sample_validate sample_parse
        (new_store 100)
        (request (codes "p"))
        raised
        undefined
        at_noon).0 in
    let n = record sample_operation {
      subject = record sample_operation.subject { fingerprint = codes "q" };
    } in
    (find sample_operation.subject.key s.records ≡ none)
    × ((reserve sample_validate sample_parse s (request (codes "q")) at_noon).1
        ≡ ok (record (new_decision n.subject) { reservation = some (reservation_of n) }))
unfolding new_store find prune keep_live
execute-retries_example =
    execute-retries sample_validate sample_parse (new_store 100) _ (request (codes "p"))
      (request (codes "q")) raised undefined at_noon at_noon sample_operation _ refl
      (λ i. omega arith) normalizes refl tt refl normalizes_retried refl

nul_free : HasNoNul (codes "rt")
nul_free = (λ e. omega arith, (λ e. omega arith, tt))

make_dedupe_key-injective_example : (codes "rt" ≡ codes "rt") × (codes "op" ≡ codes "op")
make_dedupe_key-injective_example =
    make_dedupe_key-injective (codes "rt") (codes "op") (codes "rt") (codes "op") nul_free nul_free
      refl

prune-removes_example :
    Sifted (IsOver 5100) holding.records (prune holding 5100).0.records
    × (All (IsRetained 5100) (prune holding 5100).0.records
        × (((prune (prune holding 5100).0 5100).0 ≡ (prune holding 5100).0)
            × (length holding.records
                ≡ (prune holding 5100).1 + length (prune holding 5100).0.records)))
prune-removes_example = prune-removes holding 5100

prunes_one : (prune holding 5100).1 ≡ 1
unfolding prune keep_live settle new_store
prunes_one = refl
