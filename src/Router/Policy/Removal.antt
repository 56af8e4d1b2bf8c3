-- ===== src/Router/Policy/Removal.antt =====
-- What `cancel` of src/router/policy.ts leaves of the record that it finds.
use pi_to_pi.Prelude.{
  ℕ, ◌+◌, ◌-◌, ◌≤◌, ◌≡◌, ◌≢◌, refl, sym, ap, ◌∙◌, subst, Bool, true, false, not, ◌||◌, Option, none,
  List, [], ◌∷◌, if_elim, arith, if◌then◌else◌, Text, ltb, ◌==◌, ==_iff, ==_self, All,
}
use pi_to_pi.Router.Policy.{
  QueueRecord, is_runnable_record, is_entry_cancellation_requested, is_terminal_or_aborted_state,
}
use pi_to_pi.Router.Policy.Queue.{
  Readings, within, RoutingPolicy, read_now, observe, is_due, has_token, delete_token, change_token,
  mark_expired, notify_expired, remove_record,
}
use pi_to_pi.Router.Policy.Cancel.{
  RecordLookup, found, not_found, ambiguous, QueueHandle, registered, QueueCancellationState,
  cancelled, cancelling, expired, not_cancelable, absent, unclear, is_active, is_queued,
  request_stop, expire_on_cancel, cancel_active, cancel_at, cancel_queued, cancel_record,
  cancel_found, cancel,
}
use pi_to_pi.Router.Policy.Steps.{Held, stopping, notified_of}
use pi_to_pi.Router.Policy.Found.{Finds, find_target-Finds}
use pi_to_pi.Router.Policy.Bounds.{IsQueued, IsValidPolicy}
use pi_to_pi.Router.Policy.Counting.{
  one_if, count, pending, told, told-notify, change-count, has_token-count, Held-count,
}
use pi_to_pi.Router.Policy.Once.{Once, below_one, Held-All, active-Held, waiting-Held}

-- The other records are where they were.
abbrev Elsewhere : QueueRecord → RoutingPolicy → RoutingPolicy → Type 0
Elsewhere r s s' =
    (t : ℕ)
    → t ≢ r.token
    → (count t s'.queue ≡ count t s.queue) × (count t s'.active ≡ count t s.active)

-- The record is neither queued nor active any more, and the others are where they were.
abbrev pub IsGone : QueueRecord → RoutingPolicy → RoutingPolicy → Type 0
IsGone r s s' = (count r.token s'.queue ≡ 0) × ((count r.token s'.active ≡ 0) × Elsewhere r s s')

-- The queue is as it was, and the record is active, as the others are that were; what the predicate says
-- holds of the record.
abbrev pub KeepsSlot : (QueueRecord → Type 0) → QueueRecord → RoutingPolicy → RoutingPolicy → Type 0
KeepsSlot P r s s' =
    (s'.queue ≡ s.queue)
    × ((1 ≤ count r.token s'.active)
        × (((t : ℕ) → count t s'.active ≡ count t s.active)
            × All (λ a. a.token ≡ r.token → P a) s'.active))

-- A record that expired: an active one keeps its slot and is marked, another is gone.
abbrev pub Expires : Bool → QueueRecord → RoutingPolicy → RoutingPolicy → Type 0
Expires true r s s' = KeepsSlot (λ a. a.expired ≡ true) r s s'
Expires false r s s' = IsGone r s s'

-- A record that cannot be cancelled: with an active one nothing changes, another is gone.
abbrev pub Refuses : Bool → QueueRecord → RoutingPolicy → RoutingPolicy → Type 0
Refuses true r s s' = (s'.queue ≡ s.queue) × (s'.active ≡ s.active)
Refuses false r s s' = IsGone r s s'

-- onExpired is told of the record now, unless it was told before.
abbrev pub Tells : QueueRecord → RoutingPolicy → RoutingPolicy → Type 0
Tells r s s' = told r.token s'.notified ≡ told r.token s.notified + one_if (not r.expiry_notified)

-- What each outcome means, for the record that was found.
abbrev pub Settles : RoutingPolicy → RoutingPolicy × QueueCancellationState → Type 0
Settles s (s', cancelled r) = IsGone r s s'
Settles s (s', cancelling r) = KeepsSlot (λ a. a.cancellation_requested ≡ true) r s s'
Settles s (s', expired r) = Expires (is_active r.status) r s s' × Tells r s s'
Settles s (s', not_cancelable r) = Refuses (is_active r.status) r s s'
Settles s (s', absent) = s' ≡ s
Settles s (s', unclear) = s' ≡ s

delete-token_count : (t : ℕ) (rs : List QueueRecord) → count t (delete_token t rs) ≡ count t rs - 1
unfolding count delete_token
delete-token_count t [] = refl
delete-token_count t (r ∷ rs) = ground (arith, delete-token_count t rs)

delete-other :
    (t token : ℕ) (rs : List QueueRecord) → t ≢ token → count t (delete_token token rs) ≡ count t rs
unfolding count delete_token
delete-other t token [] other = refl
delete-other t token (r ∷ rs) other =
    ground (arith, delete-other t token rs other, ==_iff r.token t, ==_iff r.token token, other)

none_left :
    (P : QueueRecord → Type 0) (token : ℕ) (rs : List QueueRecord)
    → count token rs ≡ 0
    → All (λ a. a.token ≡ token → P a) rs
unfolding count
none_left P token [] h = tt
none_left P token (r ∷ rs) h = (
  (λ e. let hit = (==_iff r.token token).1 e in absurd (ground arith)),
  none_left P token rs (ground arith),
)

change_token-All :
    (P : QueueRecord → Type 0) (token : ℕ) (f : QueueRecord → QueueRecord) (rs : List QueueRecord)
    → ((r : QueueRecord) → P (f r))
    → count token rs ≤ 1
    → All (λ a. a.token ≡ token → P a) (change_token token f rs)
unfolding count change_token
change_token-All P token f [] holds once = tt
change_token-All P token f (r ∷ rs) holds once =
    if_elim (All (λ a. a.token ≡ token → P a)) (r.token == token)
      (λ hit. ((λ _. holds r), none_left P token rs (ground arith)))
      λ miss. (
        (λ e. let hit = (==_iff r.token token).1 e in absurd cc),
        change_token-All P token f rs holds (ground arith),
      )

-- A record of the policy, which is held once, after a reading of the clock.
module _ (s : RoutingPolicy) (r : QueueRecord) (v : IsValidPolicy s)
    (once : count r.token s.queue + count r.token s.active ≤ 1) (held : Held r (registered s))
    (now : ℕ) where
  abbrev at_time : RoutingPolicy
  at_time = observe now s

  changed-KeepsSlot :
      (P : QueueRecord → Type 0) (f : QueueRecord → QueueRecord)
      → ((x : QueueRecord) → (f x).token ≡ x.token)
      → ((x : QueueRecord) → P (f x))
      → is_active r.status ≡ true
      → KeepsSlot P r s (record at_time { active = change_token r.token f s.active })
  changed-KeepsSlot P f same holds on =
      let single = Held-count r s.active (active-Held s v r held on) in
      let kept = change-count r.token r.token f same s.active in
      (
        refl,
        (
          omega arith,
          (
            (λ t. change-count t r.token f same s.active),
            change_token-All P r.token f s.active holds (omega arith),
          ),
        ),
      )

  removed-IsGone : is_active r.status ≡ false → IsGone r s (remove_record at_time r)
  unfolding remove_record
  removed-IsGone off =
      let single = Held-count r s.queue (waiting-Held s v r held off) in
      let elsewhere = has_token-count r.token s.active (omega arith) in
      if_elim (IsGone r s) (has_token r.token s.active) (λ on. absurd cc)
        λ _. (
          omega (arith, delete-token_count r.token s.queue),
          (omega arith, λ t other. (delete-other t r.token s.queue other, refl)),
        )

  waiting-is_queued : is_active r.status ≡ false → is_queued r.status ≡ true
  waiting-is_queued off =
      ap is_queued (Held-All IsQueued s.queue r (v.1.1.1.0) (waiting-Held s v r held off)).0

  told-once :
      (ns : List ℕ)
      → told r.token (notify_expired (r ∷ []) ns) ≡ told r.token ns + one_if (not r.expiry_notified)
  unfolding pending
  told-once ns = ground (arith, told-notify r.token (r ∷ []) ns, ==_self r.token)

  remove-notified : (remove_record at_time r).notified ≡ s.notified
  unfolding remove_record
  remove-notified =
      if_elim (λ (u : RoutingPolicy). u.notified ≡ s.notified) (has_token r.token s.active)
        (λ _. refl) (λ _. refl)

  expired-Settles :
      (b : Bool)
      → is_active r.status ≡ b
      → let t =
          if b
          then record at_time { active = change_token r.token mark_expired s.active }
          else remove_record at_time r in
        Expires b r s (notified_of r t) × Tells r s (notified_of r t)
  expired-Settles true on = (
    changed-KeepsSlot (λ a. a.expired ≡ true) mark_expired (λ x. refl) (λ x. refl) on,
    told-once s.notified,
  )
  expired-Settles false off = (
    removed-IsGone off,
    told-once (remove_record at_time r).notified
        ∙ ap (λ ns. told r.token ns + one_if (not r.expiry_notified)) remove-notified,
  )

  expire_on_cancel-Settles : Settles s (expire_on_cancel at_time r)
  unfolding expire_on_cancel
  expire_on_cancel-Settles = expired-Settles (is_active r.status) refl

  refused-Settles :
      is_active r.status ≡ false → Refuses (is_active r.status) r s (remove_record at_time r)
  refused-Settles off =
      subst (λ b. Refuses b r s (remove_record at_time r)) (sym off) (removed-IsGone off)

  cancel_at-Settles :
      (w : Readings) → is_active r.status ≡ false → Settles s (cancel_at at_time r now w)
  unfolding cancel_at
  cancel_at-Settles w off =
      let gone = removed-IsGone off in
      if_elim (Settles s) (is_due now r) (λ _. expire_on_cancel-Settles)
        λ _.
          if_elim (Settles s) (is_runnable_record r (w.look 1 r.token) now) (λ _. gone)
            λ _.
              if_elim (Settles s) (is_entry_cancellation_requested (w.look 2 r.token)) (λ _. gone)
                λ _. refused-Settles off

  stop-Settles : is_active r.status ≡ true → Settles s (request_stop at_time r)
  stop-Settles on =
      changed-KeepsSlot (λ a. a.cancellation_requested ≡ true) stopping (λ x. refl) (λ x. refl) on

module _ (s : RoutingPolicy) (r : QueueRecord) (v : IsValidPolicy s)
    (once : count r.token s.queue + count r.token s.active ≤ 1) (held : Held r (registered s))
    (w : Readings) (start : ℕ) where
  cancel_queued-Settles :
      is_active r.status ≡ false → Settles s (cancel_queued (observe start s) r w)
  unfolding cancel_queued
  cancel_queued-Settles off =
      let now = read_now (observe start s) none (w.clock 0) in
      if_elim (Settles s) (is_entry_cancellation_requested (w.look 0 r.token))
        (λ _. removed-IsGone s r v once held start off)
        λ _. cancel_at-Settles s r v once held now w off

  cancel_active-Settles :
      is_active r.status ≡ true → Settles s (cancel_active (observe start s) r w)
  unfolding cancel_active
  cancel_active-Settles on =
      let now = read_now (observe start s) none (w.clock 0) in
      let stop = stop-Settles s r v once held now on in
      if_elim (Settles s) (is_due now r) (λ _. expire_on_cancel-Settles s r v once held now)
        λ _.
          if_elim (Settles s)
            (r.cancellation_requested || is_entry_cancellation_requested (w.look 0 r.token))
            (λ _. stop)
            λ _.
              if_elim (Settles s) (is_terminal_or_aborted_state ((w.look 1 r.token).state))
                (λ _. subst (λ b. Refuses b r s (observe now s)) (sym on) (refl, refl)) λ _. stop

cancel_record-Settles :
    (s : RoutingPolicy) (r : QueueRecord) (w : Readings)
    → IsValidPolicy s
    → count r.token s.queue + count r.token s.active ≤ 1
    → Held r (registered s)
    → Settles s (cancel_record s r w)
unfolding cancel_record
cancel_record-Settles s r w v once held =
    let now = read_now s none (w.clock 0) in
    if_elim (Settles s) (r.expired || is_due now r)
      (λ _. expire_on_cancel-Settles s r v once held now)
      λ _.
        if_elim (Settles s) (is_active r.status)
          (λ on. cancel_active-Settles s r v once held (within 1 w) now on)
          λ off.
            if_elim (Settles s) (not (is_queued r.status))
              (λ unqueued.
                let waits = waiting-is_queued s r v once held now off in absurd (ground arith))
              λ _. cancel_queued-Settles s r v once held (within 1 w) now off

cancel_found-Settles :
    (s : RoutingPolicy) (lookup : RecordLookup) (w : Readings)
    → IsValidPolicy s
    → ((t : ℕ) → Once t s)
    → Finds (registered s) lookup
    → Settles s (cancel_found s lookup w)
unfolding cancel_found
cancel_found-Settles s not_found w v once h = refl
cancel_found-Settles s ambiguous w v once h = refl
cancel_found-Settles s (found r) w v once h =
    cancel_record-Settles s r w v
      (omega (arith, (once r.token).0, below_one (ltb r.token s.next_token))) h

-- `cancel`, on a policy that satisfies its invariants. A record that it reports as cancelled is neither
-- queued nor active any more. One that it reports as cancelling is active and asked to stop, with the
-- same queue and the same active records as before. One that it reports as expired is marked and keeps
-- its slot if it was active, and is neither queued nor active any more otherwise; onExpired has been
-- told of it once more exactly when it had not been told. With an active record that it reports as not
-- cancelable, neither the queue nor the active records change; another is neither queued nor active any
-- more. Records with other tokens stay where they were. A lookup that finds none or several records
-- changes nothing.
pub cancel-Settles :
    (s : RoutingPolicy) (target : QueueHandle) (request_id : Option Text) (w : Readings)
    → IsValidPolicy s
    → ((t : ℕ) → Once t s)
    → Settles s (cancel s target request_id w)
unfolding cancel
cancel-Settles s target request_id w v once =
    cancel_found-Settles s _ w v once (find_target-Finds s target request_id)
