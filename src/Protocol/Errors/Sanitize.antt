-- ===== src/Protocol/Errors/Sanitize.antt =====
-- What `sanitizeJsonValue` of src/protocol/errors.ts lets through.
use pi_to_pi.Prelude.{
  ℕ, zero, suc, ℤ, ◌≤◌, ◌≡◌, refl, ◌↔◌, Bool, false, Bool-cases, Option, none, some, Text, Num, int,
  between, nan, infinity, minus_infinity, arith, subst, inl, inr,
}
use pi_to_pi.Protocol.Json.{
  Value, undefined, null, opaque, string, boolean, number, array, object, Items, nil, cons, Fields,
  end, field, size_items, size_fields,
}
use pi_to_pi.Protocol.Errors.{
  sanitize_json_value, sanitize_items, sanitize_fields, is_secret_key, is_proto, max_depth,
  max_entries, push_item, set_field, unless_deep, finite_or_null,
}

-- A value at `depth` that is plain JSON, nested no deeper than `max_depth`, with no more than
-- `max_entries` entries a container and no key that looks like a secret.
mutual
  pub data Safe : ℕ → Value → Type 0 where
    a_null : {d : ℕ} → d ≤ max_depth → Safe d null
    a_string : {d : ℕ} {s : Text} → d ≤ max_depth → Safe d (string s)
    a_boolean : {d : ℕ} {b : Bool} → d ≤ max_depth → Safe d (boolean b)
    an_int : {d : ℕ} {n : Num} → d ≤ max_depth → IsFiniteNum n → Safe d (number n)
    an_array :
        {d : ℕ} {vs : Items}
        → d ≤ max_depth
        → size_items vs ≤ max_entries
        → SafeItems d vs
        → Safe d (array vs)
    an_object :
        {d : ℕ} {fs : Fields}
        → d ≤ max_depth
        → size_fields fs ≤ max_entries
        → SafeFields d fs
        → Safe d (object fs)

  pub data IsFiniteNum : Num → Type 0 where
    whole : {n : ℤ} → IsFiniteNum (int n)
    fraction : {n : ℤ} → IsFiniteNum (between n)

  pub data SafeItems : ℕ → Items → Type 0 where
    no_items : {d : ℕ} → SafeItems d nil
    item :
        {d : ℕ} {v : Value} {vs : Items} → Safe (suc d) v → SafeItems d vs → SafeItems d (cons v vs)

  pub data SafeFields : ℕ → Fields → Type 0 where
    no_fields : {d : ℕ} → SafeFields d end
    entry :
        {d : ℕ} {k : Text} {v : Value} {fs : Fields}
        → is_secret_key k ≡ false
        → is_proto k ≡ false
        → Safe (suc d) v
        → SafeFields d fs
        → SafeFields d (field k v fs)

unless_deep-some :
    (d : ℕ) (o : Option Value) (w : Value)
    → unless_deep d o ≡ some w
    → (d ≤ max_depth) × (o ≡ some w)
unless_deep-some d o w h = ground arith

size-push_item : (o : Option Value) (vs : Items) → size_items (push_item o vs) ≤ suc (size_items vs)
size-push_item none vs = omega arith
size-push_item (some v) vs = omega arith

size-set_field :
    (k : Text) (o : Option Value) (fs : Fields)
    → size_fields (set_field k o fs) ≤ suc (size_fields fs)
size-set_field k none fs = omega arith
size-set_field k (some v) fs = ground arith

size-sanitize_items : (d n : ℕ) (vs : Items) → size_items (sanitize_items d n vs) ≤ n
unfolding sanitize_json_value
size-sanitize_items d n nil = omega arith
size-sanitize_items d zero (cons v vs) = omega arith
size-sanitize_items d (suc n) (cons v vs) = omega (
  arith,
  size-push_item (sanitize_json_value (suc d) v) (sanitize_items d n vs),
  size-sanitize_items d n vs,
)

size-sanitize_fields : (d n : ℕ) (fs : Fields) → size_fields (sanitize_fields d n fs) ≤ n
unfolding sanitize_json_value
size-sanitize_fields d n end = omega arith
size-sanitize_fields d zero (field k v fs) = omega arith
size-sanitize_fields d (suc n) (field k v fs) = ground (
  arith,
  size-set_field k (sanitize_json_value (suc d) v) (sanitize_fields d n fs),
  size-sanitize_fields d n fs,
)

push_item-Safe :
    (d : ℕ) (o : Option Value) (vs : Items)
    → ((w : Value) → o ≡ some w → Safe (suc d) w)
    → SafeItems d vs
    → SafeItems d (push_item o vs)
push_item-Safe d none vs h k = k
push_item-Safe d (some v) vs h k = item (h v refl) k

set_field-Safe :
    (d : ℕ) (key : Text) (o : Option Value) (fs : Fields)
    → is_secret_key key ≡ false
    → ((w : Value) → o ≡ some w → Safe (suc d) w)
    → SafeFields d fs
    → SafeFields d (set_field key o fs)
set_field-Safe d key none fs plain h k = k
set_field-Safe d key (some v) fs plain h k = elim (Bool-cases (is_proto key)) [
  | inl proto ↦ rw proto k
  | inr own ↦ rw own (entry plain own (h v refl) k)
]

finite_or_null-Safe : (d : ℕ) (n : Num) → d ≤ max_depth → Safe d (finite_or_null n)
finite_or_null-Safe d (int n) h = an_int h whole
finite_or_null-Safe d (between n) h = an_int h fraction
finite_or_null-Safe d nan h = a_null h
finite_or_null-Safe d infinity h = a_null h
finite_or_null-Safe d minus_infinity h = a_null h

-- `unless_deep` gives `w`, and the value is safe where it is not too deep.
kept :
    (d : ℕ) (v w : Value) → unless_deep d (some v) ≡ some w → (d ≤ max_depth → Safe d v) → Safe d w
kept d v w h safe =
    let (shallow, e) = unless_deep-some d (some v) w h in
    let same : v ≡ w = cc in subst (Safe d) same (safe shallow)

mutual
  unfolding sanitize_json_value

  sanitize_sound : (d : ℕ) (v w : Value) → sanitize_json_value d v ≡ some w → Safe d w
  sanitize_sound d undefined w h = cc
  sanitize_sound d null w h = kept d null w h a_null
  sanitize_sound d (string s) w h = kept d (string s) w h a_string
  sanitize_sound d (boolean b) w h = kept d (boolean b) w h a_boolean
  sanitize_sound d (number n) w h = kept d _ w h (finite_or_null-Safe d n)
  sanitize_sound d (array vs) w h = kept d _ w h λ shallow.
      an_array shallow (size-sanitize_items d max_entries vs)
        (sanitize_items_sound d max_entries vs)
  sanitize_sound d (object fs) w h = kept d _ w h λ shallow.
      an_object shallow (size-sanitize_fields d max_entries fs)
        (sanitize_fields_sound d max_entries fs)
  sanitize_sound d opaque w h = cc

  sanitize_items_sound : (d n : ℕ) (vs : Items) → SafeItems d (sanitize_items d n vs)
  sanitize_items_sound d n nil = no_items
  sanitize_items_sound d zero (cons v vs) = no_items
  sanitize_items_sound d (suc n) (cons v vs) =
      push_item-Safe d _ _ (sanitize_sound (suc d) v) (sanitize_items_sound d n vs)

  sanitize_fields_sound : (d n : ℕ) (fs : Fields) → SafeFields d (sanitize_fields d n fs)
  sanitize_fields_sound d n end = no_fields
  sanitize_fields_sound d zero (field k v fs) = no_fields
  sanitize_fields_sound d (suc n) (field k v fs) = elim (Bool-cases (is_secret_key k)) [
    | inl secret ↦ rw secret (sanitize_fields_sound d n fs)
    | inr plain ↦
        rw plain
          (set_field-Safe d k _ _ plain (sanitize_sound (suc d) v) (sanitize_fields_sound d n fs))
  ]

unless_deep-shallow : (d : ℕ) (o : Option Value) → d ≤ max_depth → unless_deep d o ≡ o
unless_deep-shallow d o h = ground arith

finite_or_null-finite : {n : Num} → IsFiniteNum n → finite_or_null n ≡ number n
finite_or_null-finite whole = refl
finite_or_null-finite fraction = refl

set_field-own :
    (k : Text) (v : Value) (fs : Fields)
    → is_proto k ≡ false
    → set_field k (some v) fs ≡ field k v fs
set_field-own k v fs own = rw own

mutual
  unfolding sanitize_json_value

  sanitize_complete : {d : ℕ} {v : Value} → Safe d v → sanitize_json_value d v ≡ some v
  sanitize_complete (a_null {d} h) = unless_deep-shallow d _ h
  sanitize_complete (a_string {d} h) = unless_deep-shallow d _ h
  sanitize_complete (a_boolean {d} h) = unless_deep-shallow d _ h
  sanitize_complete (an_int {d} {n} h f) = rw (finite_or_null-finite f) (unless_deep-shallow d _ h)
  sanitize_complete (an_array {d} {vs} h few vsafe) =
      rw (sanitize_items_complete max_entries few vsafe) (unless_deep-shallow d _ h)
  sanitize_complete (an_object {d} {fs} h few fsafe) =
      rw (sanitize_fields_complete max_entries few fsafe) (unless_deep-shallow d _ h)

  sanitize_items_complete :
      {d : ℕ} {vs : Items} (n : ℕ) → size_items vs ≤ n → SafeItems d vs → sanitize_items d n vs ≡ vs
  sanitize_items_complete n few no_items = refl
  sanitize_items_complete zero few (item v rest) = absurd (omega arith)
  sanitize_items_complete (suc n) few (item v rest) =
      rw (sanitize_complete v, sanitize_items_complete n (omega arith) rest)

  sanitize_fields_complete :
      {d : ℕ} {fs : Fields} (n : ℕ)
      → size_fields fs ≤ n
      → SafeFields d fs
      → sanitize_fields d n fs ≡ fs
  sanitize_fields_complete n few no_fields = refl
  sanitize_fields_complete zero few (entry plain own v rest) = absurd (omega arith)
  sanitize_fields_complete (suc n) few (entry {k} {v = w} {fs} plain own v rest) =
      rw (plain, sanitize_complete v, sanitize_fields_complete n (omega arith) rest)
        (set_field-own k w fs own)

-- Whatever value is sanitised, a result is safe at its depth: plain JSON with finite
-- numbers, nested at most to depth 8, at most 64 entries to a container, and no key in it
-- looks like a secret.
pub sanitize-Safe : (depth : ℕ) (v w : Value) → sanitize_json_value depth v ≡ some w → Safe depth w
sanitize-Safe depth v w h = sanitize_sound depth v w h

-- Sanitising leaves exactly the safe values as they are.
pub sanitize_fixed_iff :
    (depth : ℕ) (v : Value) → (sanitize_json_value depth v ≡ some v) ↔ Safe depth v
sanitize_fixed_iff depth v = (sanitize_sound depth v v, sanitize_complete)
