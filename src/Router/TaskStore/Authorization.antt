-- ===== src/Router/TaskStore/Authorization.antt =====
-- Who learns of a task from src/router/task-store.ts, and who may cancel it.
use pi_to_pi.Prelude.{
  ◌≡◌, refl, sym, ap, subst, ◌∙◌, false, Option, none, some, Text, Result, ok, err, Ensures,
  returns, throws, arith,
}
use pi_to_pi.Router.TaskStore.{
  StoredTask, TaskStore, TaskStoreOptions, TaskError, Clocks, within, Dates,
  TaskAuthorizationAction, status, cancel, unauthorized, is_authorized,
}
use pi_to_pi.Router.TaskStore.Records.{find_record, find-request_id}
use pi_to_pi.Router.TaskStore.Transition.{Answer, expire_if_due}
use pi_to_pi.Router.TaskStore.Operations.{
  SnapshotReadOptions, refused, TaskCancellationResult, failed_cancel, CancellationRequest,
  missing_code, read_status, after_expiry, get_status_found, get_status_result,
}
use pi_to_pi.Router.TaskStore.Cancel.{cancel_current, cancel_expired, cancel_found, cancel_task}
use pi_to_pi.Router.TaskStore.Steps.{Steps}
use pi_to_pi.Router.TaskStore.Moves.{expire_if_due-Makes}
use pi_to_pi.Router.TaskStore.Outcomes.{Steps-Has}

module _ (options : TaskStoreOptions) (caller : Option Text)
    (action : TaskAuthorizationAction) where
  -- The caller may do nothing with the task of this key, if there is one.
  abbrev pub IsStranger : Text → TaskStore → Type 0
  IsStranger key s =
      (r : StoredTask)
      → find_record key s.records ≡ some r
      → is_authorized options r caller action ≡ false

  same-authorized :
      (r r' : StoredTask)
      → r'.request_id ≡ r.request_id
      → r'.owner ≡ r.owner
      → is_authorized options r' caller action ≡ is_authorized options r caller action
  unfolding is_authorized
  same-authorized r r' same owned = ground arith

  -- The expiry of a task changes nothing about who may do what with it.
  pub stays-IsStranger :
      (s t : TaskStore) (key : Text) (r : StoredTask)
      → Steps options false s t
      → find_record key s.records ≡ some r
      → IsStranger key s
      → IsStranger key t
  stays-IsStranger s t key r steps here stranger x there =
      let (r', here', f) = Steps-Has options key r steps here in
      let own : r' ≡ x = cc in
      let same : r'.request_id ≡ r.request_id =
        find-request_id key t.records r' here' ∙ sym (find-request_id key s.records r here) in
      ap (λ (y : StoredTask). is_authorized options y caller action) (sym own)
      ∙ same-authorized r r' same f.owned
      ∙ stranger r here

module _ (dates : Dates) (options : TaskStoreOptions) where
  -- A value that is returned is this one.
  abbrev pub Only : {A : Type 0} → A → Result TaskError A → Type 0
  Only a m = Ensures (λ b. b ≡ a) m

  refused-Only :
      (t : TaskStore) (o : SnapshotReadOptions) (caller : Option Text) (key : Text)
      (m : Option StoredTask)
      → o.caller ≡ some caller
      → find_record key t.records ≡ m
      → IsStranger options caller status key t
      → read_status options o m ≡ refused unauthorized
  unfolding read_status
  refused-Only t o caller key none given here stranger = simp given
  refused-Only t o caller key (some x) given here stranger = simp (given, stranger x here)

  status-after :
      (s : TaskStore) (a : Answer (Unit {0})) (r : StoredTask) (key : Text)
      (o : SnapshotReadOptions) (caller : Option Text)
      → o.caller ≡ some caller
      → Steps options false s a.0
      → find_record key s.records ≡ some r
      → IsStranger options caller status key s
      → Only (refused unauthorized) (after_expiry a key (λ s'. read_status options o)).1
  unfolding after_expiry
  status-after s (t, err e) r key o caller given steps here stranger = throws
  status-after s (t, ok _) r key o caller given steps here stranger = returns (
      refused-Only t o caller key (find_record key t.records) given refl
        (stays-IsStranger options caller status s t key r steps here stranger))

  -- A stranger cannot tell a task from none: a caller who is not authorized for the task of a key, or asks
  -- for a key without a task, gets no answer of `getStatusResult` but `unauthorized`.
  pub get_status_result-refuses :
      (s : TaskStore) (key : Text) (o : SnapshotReadOptions) (c : Clocks) (caller : Option Text)
      → o.caller ≡ some caller
      → IsStranger options caller status key s
      → Only (refused unauthorized) (get_status_result dates options s key o c).1
  unfolding get_status_result
  get_status_result-refuses s key o c caller given stranger = go (find_record key s.records) refl
    where
      go :
          (m : Option StoredTask)
          → find_record key s.records ≡ m
          → Only (refused unauthorized) (get_status_found dates options s o c m).1
      go none e = unfold get_status_found in returns (ap (λ m. refused (missing_code m)) given)
      go (some r) e =
          unfold get_status_found in
          subst
            (λ k.
              Only (refused unauthorized)
                (after_expiry (expire_if_due dates options s r c) k
                  (λ s'. read_status options o)).1)
            (sym (find-request_id key s.records r e))
            (status-after s _ r key o caller given (expire_if_due-Makes dates options false s r c) e
              stranger)

  cancel_current-Only :
      (t : TaskStore) (request : CancellationRequest) (c : Clocks) (caller : Option Text)
      (key : Text) (m : Option StoredTask)
      → request.caller ≡ some caller
      → find_record key t.records ≡ m
      → IsStranger options caller cancel key t
      → cancel_current dates options t request c m ≡ (t, ok (failed_cancel unauthorized none))
  unfolding cancel_current
  cancel_current-Only t request c caller key none given here stranger = simp given
  cancel_current-Only t request c caller key (some x) given here stranger =
      simp (given, stranger x here)

  -- The answer, and that it leaves the store as it finds it.
  record Refuses (t : TaskStore) (a : Answer TaskCancellationResult) : Type 0 where
    answered : Only (failed_cancel unauthorized none) a.1
    untouched : a.0 ≡ t

  cancel-after :
      (s : TaskStore) (a : Answer (Unit {0})) (r : StoredTask) (key : Text)
      (request : CancellationRequest) (c : Clocks) (caller : Option Text)
      → request.caller ≡ some caller
      → Steps options false s a.0
      → find_record key s.records ≡ some r
      → IsStranger options caller cancel key s
      → Refuses a.0 (cancel_expired dates options a key request c)
  unfolding cancel_expired
  cancel-after s (t, err e) r key request c caller given steps here stranger = record {
    answered = throws;
    untouched = refl;
  }
  cancel-after s (t, ok _) r key request c caller given steps here stranger =
      rw
        (cancel_current-Only t request c caller key (find_record key t.records) given refl
          (stays-IsStranger options caller cancel s t key r steps here stranger))
        (record { answered = returns refl; untouched = refl })

  -- What a call leaves that only looks for the task, and expires it if it is due.
  abbrev pub only_expired : TaskStore → Clocks → Option StoredTask → TaskStore
  only_expired s c none = s
  only_expired s c (some r) = (expire_if_due dates options s r c).0

  cancel_found-Refuses :
      (s : TaskStore) (key : Text) (request : CancellationRequest) (c : Clocks)
      (caller : Option Text) (m : Option StoredTask)
      → request.caller ≡ some caller
      → find_record key s.records ≡ m
      → IsStranger options caller cancel key s
      → Refuses (only_expired s c m) (cancel_found dates options s request c m)
  unfolding cancel_found
  cancel_found-Refuses s key request c caller none given e stranger = record {
    answered = returns (simp given);
    untouched = refl;
  }
  cancel_found-Refuses s key request c caller (some r) given e stranger =
      let same = sym (find-request_id key s.records r e) in
      subst
        (λ k. Refuses (expire_if_due dates options s r c).0 (
          cancel_expired dates options (expire_if_due dates options s r c) k request (within 40 c)))
        same
        (cancel-after s _ r key request _ caller given
          (expire_if_due-Makes dates options false s r c) e stranger)

  -- A stranger cancels nothing: for a caller who is not authorized for the task of a key, or gives a key
  -- without a task, `cancelTask` of an open store answers nothing but `unauthorized`, and changes
  -- nothing but that a task which is due expires.
  pub cancel_task-refuses :
      (s : TaskStore) (key : Text) (request : CancellationRequest) (c : Clocks)
      (caller : Option Text)
      → s.disposed ≡ false
      → request.caller ≡ some caller
      → IsStranger options caller cancel key s
      → Only (failed_cancel unauthorized none) (cancel_task dates options s key request c).1
        × ((cancel_task dates options s key request c).0
            ≡ only_expired s c (find_record key s.records))
  unfolding cancel_task
  cancel_task-refuses s key request c caller usable given stranger =
      let r =
        cancel_found-Refuses s key request c caller (find_record key s.records) given refl
          stranger in
      let both : Only (failed_cancel unauthorized none)
            (cancel_found dates options s request c (find_record key s.records)).1
          × ((cancel_found dates options s request c (find_record key s.records)).0
              ≡ only_expired s c (find_record key s.records)) =
        (r.answered, r.untouched) in
      simp usable both
