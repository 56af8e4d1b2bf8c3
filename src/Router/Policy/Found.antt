-- ===== src/Router/Policy/Found.antt =====
-- The records that the lookups of src/router/policy.ts find.
use pi_to_pi.Prelude.{inl, inr, refl, Bool, Option, none, some, List, [], ◌∷◌, ◌++◌, if_elim, Text}
use pi_to_pi.Router.Policy.{Object, QueueRecord}
use pi_to_pi.Router.Policy.Queue.{RoutingPolicy}
use pi_to_pi.Router.Policy.Cancel.{
  RecordLookup, found, not_found, ambiguous, QueueHandle, by_text, by_object, is_text, answers_to,
  registered, select, only_record, lookup_entry_records, of_identity, referred, find_reference,
  confirm, find_text, find_entry, find_object, find_target,
}
use pi_to_pi.Router.Policy.Steps.{Held}

-- What is found is one of the records.
abbrev pub Finds : List QueueRecord → RecordLookup → Type 0
Finds rs (found r) = Held r rs
Finds rs not_found = Unit
Finds rs ambiguous = Unit

-- Every record of the first list is one of the second.
abbrev pub Within : List QueueRecord → List QueueRecord → Type 0
Within rs ss = (r : QueueRecord) → Held r rs → Held r ss

pub Held-cons :
    (x : QueueRecord) (rs ss : List QueueRecord) → Within rs ss → Within (x ∷ rs) (x ∷ ss)
Held-cons x rs ss w r (inl e) = inl e
Held-cons x rs ss w r (inr h) = inr (w r h)

pub select-Within : (p : QueueRecord → Bool) (rs : List QueueRecord) → Within (select p rs) rs
unfolding select
select-Within p [] = λ r h. h
select-Within p (x ∷ xs) =
    if_elim (λ ys. Within ys (x ∷ xs)) (p x) (λ _. Held-cons x _ xs (select-Within p xs))
      λ _ r h. inr (select-Within p xs r h)

pub Held-append : (rs ss : List QueueRecord) (r : QueueRecord) → Held r ss → Held r (rs ++ ss)
Held-append [] ss r h = h
Held-append (x ∷ rs) ss r h = inr (Held-append rs ss r h)

only-Finds :
    (ss : List QueueRecord) (rs : List QueueRecord) → Within rs ss → Finds ss (only_record rs)
unfolding only_record
only-Finds ss [] w = tt
only-Finds ss (r ∷ []) w = w r (inl refl)
only-Finds ss (r ∷ _ ∷ _) w = tt

module _ (s : RoutingPolicy) where
  abbrev Known : List QueueRecord → Type 0
  Known rs = Within rs (registered s)

  selected : (p : QueueRecord → Bool) → Known (select p (registered s))
  selected p = select-Within p (registered s)

  lookup-Finds :
      (rs : List QueueRecord) (request_id : Option Text)
      → Known rs
      → Finds (registered s) (lookup_entry_records rs request_id)
  unfolding lookup_entry_records
  lookup-Finds rs request_id known =
      only-Finds (registered s) _ λ r h. known r (select-Within (answers_to request_id) rs r h)

  of_identity-Known :
      (target : Text) (rs : List QueueRecord) → Known rs → Known (of_identity s target rs)
  of_identity-Known target [] known = selected _
  of_identity-Known target (r ∷ rs) known = known

  find_text-Finds :
      (target : Text) (request_id : Option Text) (rs : List QueueRecord)
      → Known rs
      → Finds (registered s) (find_text s target request_id rs)
  unfolding find_text
  find_text-Finds target request_id (r ∷ _) known = known r (inl refl)
  find_text-Finds target request_id [] known =
      lookup-Finds _ request_id (of_identity-Known target _ (selected _))

  referred-Finds :
      (request_id : Option Text) (rs : List QueueRecord)
      → Known rs
      → Finds (registered s) (referred request_id rs)
  referred-Finds request_id [] known = tt
  referred-Finds request_id (r ∷ _) known =
      if_elim (Finds (registered s)) (answers_to request_id r) (λ _. known r (inl refl)) λ _. tt

  reference-Finds :
      (reference : Option (Text × Option Text)) → Finds (registered s) (find_reference s reference)
  reference-Finds none = tt
  reference-Finds (some (handle, request_id)) = referred-Finds request_id _ (selected _)

  find_entry-Finds :
      (reference : Option (Text × Option Text)) (request_id : Option Text) (rs : List QueueRecord)
      → Known rs
      → Finds (registered s) (find_entry s reference request_id rs)
  unfolding find_entry
  find_entry-Finds reference request_id [] known = reference-Finds reference
  find_entry-Finds reference request_id (r ∷ rs) known = lookup-Finds (r ∷ rs) request_id known

  find_object-Finds :
      (object : Object) (reference : Option (Text × Option Text)) (request_id : Option Text)
      (rs : List QueueRecord)
      → Known rs
      → Finds (registered s) (find_object s object reference request_id rs)
  unfolding find_object
  find_object-Finds object reference request_id (r ∷ _) known = known r (inl refl)
  find_object-Finds object reference request_id [] known =
      find_entry-Finds reference request_id _ (selected _)

  confirm-Finds :
      (request_id : Option Text) (lookup : RecordLookup)
      → Finds (registered s) lookup
      → Finds (registered s) (confirm request_id lookup)
  confirm-Finds request_id not_found h = tt
  confirm-Finds request_id ambiguous h = tt
  confirm-Finds request_id (found r) h =
      if_elim (Finds (registered s)) (answers_to request_id r) (λ _. h) λ _. tt

  pub find_target-Finds :
      (target : QueueHandle) (request_id : Option Text)
      → Finds (registered s) (find_target s target request_id)
  unfolding find_target
  find_target-Finds (by_text target) request_id =
      confirm-Finds request_id _ (find_text-Finds target request_id _ (selected _))
  find_target-Finds (by_object object reference) request_id = confirm-Finds request_id _ (
      find_object-Finds object reference request_id _
        λ r h. Held-append s.queue s.active r (select-Within _ s.active r h))

  pub by_request-Finds :
      (request_id : Text)
      → Finds
          (registered s)
          (only_record (select (λ r. is_text request_id r.entry.request_id) (registered s)))
  by_request-Finds request_id = only-Finds (registered s) _ (selected _)
