-- ===== src/Router/TaskStore/Records.antt =====
-- src/router/task-store.ts: the map of records and the set of queued keys, with what a lookup finds
-- after each change.
use pi_to_pi.Prelude.{
  ◌≡◌, if◌then◌else◌, Bool, false, ◌||◌, Option, none, some, List, [], ◌∷◌, ◌++◌, Text, text_eq,
  text_eq_iff, arith,
}
use pi_to_pi.Router.TaskStore.{StoredTask}

-- `records.get(key)`
unfoldable pub find_record : Text → List StoredTask → Option StoredTask
find_record key [] = none
find_record key (r ∷ rs) = if text_eq r.request_id key then some r else find_record key rs

-- The object under a key, changed in place.
unfoldable pub change_record : Text → (StoredTask → StoredTask) → List StoredTask → List StoredTask
change_record key f [] = []
change_record key f (r ∷ rs) =
    if text_eq r.request_id key then f r ∷ change_record key f rs else r ∷ change_record key f rs

-- `records.delete(key)`
unfoldable pub delete_record : Text → List StoredTask → List StoredTask
delete_record key [] = []
delete_record key (r ∷ rs) =
    if text_eq r.request_id key then delete_record key rs else r ∷ delete_record key rs

-- `queued.has(key)`
unfoldable pub has_key : Text → List Text → Bool
has_key key [] = false
has_key key (k ∷ ks) = text_eq k key || has_key key ks

-- `queued.add(key)`
unfoldable pub add_key : Text → List Text → List Text
add_key key ks = if has_key key ks then ks else ks ++ key ∷ []

-- `queued.delete(key)`
unfoldable pub delete_key : Text → List Text → List Text
delete_key key [] = []
delete_key key (k ∷ ks) = if text_eq k key then delete_key key ks else k ∷ delete_key key ks

abbrev pub map_option : (StoredTask → StoredTask) → Option StoredTask → Option StoredTask
map_option f none = none
map_option f (some r) = some (f r)

pub find-change :
    (key k : Text) (f : StoredTask → StoredTask)
    → ((r : StoredTask) → (f r).request_id ≡ r.request_id)
    → (rs : List StoredTask)
    → find_record k (change_record key f rs)
      ≡ (if text_eq key k then map_option f (find_record k rs) else find_record k rs)
unfolding find_record change_record
find-change key k f same [] = ground arith
find-change key k f same (r ∷ rs) = ground (
  arith,
  find-change key k f same rs,
  same r,
  text_eq_iff r.request_id key,
  text_eq_iff r.request_id k,
  text_eq_iff (f r).request_id k,
  text_eq_iff key k,
)

pub find-delete :
    (key k : Text) (rs : List StoredTask)
    → find_record k (delete_record key rs) ≡ (if text_eq key k then none else find_record k rs)
unfolding find_record delete_record
find-delete key k [] = ground arith
find-delete key k (r ∷ rs) = ground (
  arith,
  find-delete key k rs,
  text_eq_iff r.request_id key,
  text_eq_iff r.request_id k,
  text_eq_iff key k,
)

pub find-append :
    (k : Text) (rs : List StoredTask) (r : StoredTask)
    → find_record r.request_id rs ≡ none
    → find_record k (rs ++ r ∷ []) ≡ (if text_eq r.request_id k then some r else find_record k rs)
unfolding find_record
find-append k [] r h = ground arith
find-append k (x ∷ rs) r h = ground (
  arith,
  find-append k rs r,
  text_eq_iff x.request_id k,
  text_eq_iff x.request_id r.request_id,
  text_eq_iff r.request_id k,
)

pub find-request_id :
    (k : Text) (rs : List StoredTask) (r : StoredTask)
    → find_record k rs ≡ some r
    → r.request_id ≡ k
unfolding find_record
find-request_id k [] r h = cc
find-request_id k (x ∷ rs) r h = ground (arith, find-request_id k rs r, text_eq_iff x.request_id k)

has-append :
    (k : Text) (ks : List Text) (key : Text)
    → has_key k (ks ++ key ∷ []) ≡ (has_key k ks || text_eq key k)
unfolding has_key
has-append k [] key = ground arith
has-append k (x ∷ ks) key = ground (arith, has-append k ks key)

pub has-add :
    (key k : Text) (ks : List Text) → has_key k (add_key key ks) ≡ (has_key k ks || text_eq key k)
unfolding add_key
has-add key k ks = ground (arith, has-append k ks key, text_eq_iff key k)

pub has-delete :
    (key k : Text) (ks : List Text)
    → has_key k (delete_key key ks) ≡ (if text_eq key k then false else has_key k ks)
unfolding has_key delete_key
has-delete key k [] = ground arith
has-delete key k (x ∷ ks) =
    ground (arith, has-delete key k ks, text_eq_iff x key, text_eq_iff x k, text_eq_iff key k)
