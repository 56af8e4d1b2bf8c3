-- ===== src/Router/Policy/Cancel.antt =====
-- src/router/policy.ts: the lookup of records, `release`, `cancel` and the reads.
use pi_to_pi.Prelude.{
  ℕ, ◌==◌, if◌then◌else◌, Bool, true, false, not, ◌||◌, Option, none, some, List, [], ◌∷◌, ◌++◌,
  Text, text_eq,
}
use pi_to_pi.Router.Policy.{
  Object, caller_object, lease_object, QueueEntry, QueueRecord, Status, queued, active,
  is_runnable_record, is_entry_cancellation_requested, is_terminal_or_aborted_state,
}
use pi_to_pi.Router.Policy.Queue.{
  Readings, within, RoutingPolicy, read_now, observe, is_due, mark_expired, notify_expired,
  change_token, remove_record, expire_at,
}

pub data RecordLookup : Type 0 where
  found : QueueRecord → RecordLookup
  not_found ambiguous : RecordLookup

-- A string, or an object with the handle and the request id that it may have.
pub data QueueHandle : Type 0 where
  by_text : Text → QueueHandle
  by_object : Object → Option (Text × Option Text) → QueueHandle

abbrev pub object_eq : Object → Object → Bool
object_eq (caller_object m) (caller_object n) = m == n
object_eq (lease_object m) (lease_object n) = m == n
object_eq _ _ = false

abbrev pub is_text : Text → Option Text → Bool
is_text text none = false
is_text text (some t) = text_eq t text

-- The request id that is asked for, if any, is the record's.
abbrev pub answers_to : Option Text → QueueRecord → Bool
answers_to none r = true
answers_to (some request_id) r = is_text request_id r.entry.request_id

unfoldable pub select : (QueueRecord → Bool) → List QueueRecord → List QueueRecord
select p [] = []
select p (r ∷ rs) = let rest = select p rs in if p r then r ∷ rest else rest

-- `lookupEntryRecords`, of a set that holds records.
unfoldable pub only_record : List QueueRecord → RecordLookup
only_record [] = not_found
only_record (r ∷ []) = found r
only_record (r ∷ _ ∷ _) = ambiguous

unfoldable pub lookup_entry_records : List QueueRecord → Option Text → RecordLookup
lookup_entry_records records request_id = only_record (select (answers_to request_id) records)

-- The records that are registered.
abbrev pub registered : RoutingPolicy → List QueueRecord
registered s = s.queue ++ s.active

abbrev pub of_handle : RoutingPolicy → Text → List QueueRecord
of_handle s handle = select (λ r. text_eq r.handle handle) (registered s)

-- `entryIds.get(target) ?? requestIds.get(target)`
abbrev pub of_identity : RoutingPolicy → Text → List QueueRecord → List QueueRecord
of_identity s target [] = select (λ r. is_text target r.entry.request_id) (registered s)
of_identity s target (r ∷ rs) = r ∷ rs

unfoldable pub find_text : RoutingPolicy → Text → Option Text → List QueueRecord → RecordLookup
find_text s target request_id (r ∷ _) = found r
find_text s target request_id [] =
    lookup_entry_records
      (of_identity s target (select (λ r. is_text target r.entry.id) (registered s))) request_id

-- A handle reference that names a request finds only a record of that request.
abbrev pub referred : Option Text → List QueueRecord → RecordLookup
referred request_id [] = not_found
referred request_id (r ∷ _) = if answers_to request_id r then found r else not_found

abbrev pub find_reference : RoutingPolicy → Option (Text × Option Text) → RecordLookup
find_reference s none = not_found
find_reference s (some (handle, request_id)) = referred request_id (of_handle s handle)

unfoldable pub find_entry :
    RoutingPolicy → Option (Text × Option Text) → Option Text → List QueueRecord → RecordLookup
find_entry s reference request_id [] = find_reference s reference
find_entry s reference request_id (r ∷ rs) = lookup_entry_records (r ∷ rs) request_id

unfoldable pub find_object :
    RoutingPolicy
    → Object
    → Option (Text × Option Text)
    → Option Text
    → List QueueRecord
    → RecordLookup
find_object s object reference request_id (r ∷ _) = found r
find_object s object reference request_id [] =
    find_entry s reference request_id
      (select (λ r. object_eq r.entry.reference object) (registered s))

abbrev pub confirm : Option Text → RecordLookup → RecordLookup
confirm request_id (found r) = if answers_to request_id r then found r else not_found
confirm request_id lookup = lookup

unfoldable pub find_target : RoutingPolicy → QueueHandle → Option Text → RecordLookup
find_target s (by_text target) request_id =
    confirm request_id (find_text s target request_id (of_handle s target))
find_target s (by_object object reference) request_id = confirm request_id (
    find_object s object reference request_id
      (select (λ r. object_eq (lease_object r.token) object) s.active))

abbrev pub is_held : Status → Bool
is_held active = true
is_held queued = true
is_held _ = false

unfoldable pub release_found : RoutingPolicy → RecordLookup → RoutingPolicy × Bool
release_found s (found r) = if is_held r.status then (remove_record s r, true) else (s, false)
release_found s _ = (s, false)

unfoldable pub release : RoutingPolicy → QueueHandle → Option Text → RoutingPolicy × Bool
release s target request_id = release_found s (find_target s target request_id)

pub data QueueCancellationState : Type 0 where
  cancelled cancelling expired not_cancelable : QueueRecord → QueueCancellationState
  absent unclear : QueueCancellationState

abbrev pub is_active : Status → Bool
is_active active = true
is_active _ = false

abbrev pub is_queued : Status → Bool
is_queued queued = true
is_queued _ = false

-- A record whose deadline has passed: an active one is marked, another is removed.
unfoldable pub expire_on_cancel :
    RoutingPolicy → QueueRecord → RoutingPolicy × QueueCancellationState
expire_on_cancel s r =
    let s' =
      if is_active r.status
      then record s { active = change_token r.token mark_expired s.active }
      else remove_record s r in
    (record s' { notified = notify_expired (r ∷ []) s'.notified }, expired r)

abbrev pub request_stop : RoutingPolicy → QueueRecord → RoutingPolicy × QueueCancellationState
request_stop s r = (
  record s {
    active = change_token r.token (λ a. record a { cancellation_requested = true }) s.active;
  },
  cancelling r,
)

unfoldable pub cancel_active :
    RoutingPolicy → QueueRecord → Readings → RoutingPolicy × QueueCancellationState
cancel_active s r w =
    let now = read_now s none (w.clock 0) in
    if is_due now r
    then expire_on_cancel (observe now s) r
    else if r.cancellation_requested || is_entry_cancellation_requested (w.look 0 r.token)
    then request_stop (observe now s) r
    else if is_terminal_or_aborted_state ((w.look 1 r.token).state)
    then (observe now s, not_cancelable r)
    else request_stop (observe now s) r

-- After the second reading of the clock.
unfoldable pub cancel_at :
    RoutingPolicy → QueueRecord → ℕ → Readings → RoutingPolicy × QueueCancellationState
cancel_at s r now w =
    if is_due now r
    then expire_on_cancel s r
    else if is_runnable_record r (w.look 1 r.token) now
    then (remove_record s r, cancelled r)
    else if is_entry_cancellation_requested (w.look 2 r.token)
    then (remove_record s r, cancelled r)
    else (remove_record s r, not_cancelable r)

unfoldable pub cancel_queued :
    RoutingPolicy → QueueRecord → Readings → RoutingPolicy × QueueCancellationState
cancel_queued s r w =
    if is_entry_cancellation_requested (w.look 0 r.token)
    then (remove_record s r, cancelled r)
    else (let now = read_now s none (w.clock 0) in cancel_at (observe now s) r now w)

unfoldable pub cancel_record :
    RoutingPolicy → QueueRecord → Readings → RoutingPolicy × QueueCancellationState
cancel_record s r w =
    let now = read_now s none (w.clock 0) in
    let s' = observe now s in
    if r.expired || is_due now r
    then expire_on_cancel s' r
    else if is_active r.status
    then cancel_active s' r (within 1 w)
    else if not (is_queued r.status)
    then (s', not_cancelable r)
    else cancel_queued s' r (within 1 w)

unfoldable pub cancel_found :
    RoutingPolicy → RecordLookup → Readings → RoutingPolicy × QueueCancellationState
cancel_found s (found r) w = cancel_record s r w
cancel_found s not_found w = (s, absent)
cancel_found s ambiguous w = (s, unclear)

unfoldable pub cancel :
    RoutingPolicy → QueueHandle → Option Text → Readings → RoutingPolicy × QueueCancellationState
cancel s target request_id w = cancel_found s (find_target s target request_id) w

unfoldable pub cancel_by_request_id :
    RoutingPolicy → Text → Readings → RoutingPolicy × QueueCancellationState
cancel_by_request_id s request_id w =
    cancel_found s
      (only_record (select (λ r. is_text request_id r.entry.request_id) (registered s))) w

abbrev runnable_found : RecordLookup → Readings → ℕ → Bool
runnable_found (found r) w now = is_runnable_record r (w.look 1 r.token) now
runnable_found _ w now = false

unfoldable pub is_runnable :
    RoutingPolicy → QueueHandle → Option ℕ → Readings → RoutingPolicy × Bool
is_runnable s target override w =
    let now = read_now s override (w.clock 0) in
    let s' = expire_at s w now in (s', runnable_found (find_target s' target none) w now)

abbrev first_entry : List QueueRecord → Option QueueEntry
first_entry [] = none
first_entry (r ∷ _) = some r.entry

unfoldable pub peek : RoutingPolicy → Option ℕ → Readings → RoutingPolicy × Option QueueEntry
peek s override w =
    let s' = expire_at s w (read_now s override (w.clock 0)) in (s', first_entry s'.queue)
