-- ===== src/Router/Policy/Sweep.antt =====
-- The first loop of `expire` of src/router/policy.ts, by index from the back, and what it leaves.
use pi_to_pi.Prelude.{
  ℕ, zero, suc, ◌+◌, ◌≤◌, ◌≡◌, refl, sym, ap, ◌∙◌, Bool, true, false, not, ◌||◌, if◌then◌else◌,
  Option, none, some, List, [], ◌∷◌, length, arith, ◌==◌, ==_self,
}
use pi_to_pi.Router.Policy.{QueueRecord, is_runnable_record}
use pi_to_pi.Router.Policy.Queue.{Readings, is_due, delete_token, sweep_queue}
use pi_to_pi.Router.Policy.Counting.{count}

-- `queue[index]`
unfoldable pub get_elem? : List QueueRecord → ℕ → Option QueueRecord
get_elem? [] index = none
get_elem? (r ∷ rs) zero = some r
get_elem? (r ∷ rs) (suc index) = get_elem? rs index

abbrev is_gone : Readings → ℕ → QueueRecord → Bool
is_gone w now r = is_due now r || not (is_runnable_record r (w.look 0 r.token) now)

-- One round: a record that is due or not runnable is removed by its identity.
unfoldable pub expire_round :
    Readings → ℕ → Option QueueRecord → List QueueRecord → List QueueRecord
expire_round w now none queue = queue
expire_round w now (some r) queue = if is_gone w now r then delete_token r.token queue else queue

-- The rounds for the indexes below a number, the greatest first.
unfoldable pub expire_loop : Readings → ℕ → ℕ → List QueueRecord → List QueueRecord
expire_loop w now zero queue = queue
expire_loop w now (suc index) queue =
    expire_loop w now index (expire_round w now (get_elem? queue index) queue)

-- A list in front of another, in the opposite order.
rev_onto : List QueueRecord → List QueueRecord → List QueueRecord
rev_onto [] ys = ys
rev_onto (z ∷ zs) ys = rev_onto zs (z ∷ ys)

get-rev_onto :
    (zs : List QueueRecord) (n : ℕ) (ys : List QueueRecord)
    → get_elem? (rev_onto zs ys) (length zs + n) ≡ get_elem? ys n
unfolding rev_onto get_elem?
get-rev_onto [] n ys = ap (get_elem? ys) (omega arith)
get-rev_onto (z ∷ zs) n ys =
    let e : length (z ∷ zs) + n ≡ length zs + suc n = omega arith in
    ap (get_elem? (rev_onto zs (z ∷ ys))) e ∙ get-rev_onto zs (suc n) (z ∷ ys)

delete-rev_onto :
    (t : ℕ) (zs ys : List QueueRecord)
    → count t zs ≡ 0
    → delete_token t (rev_onto zs ys) ≡ rev_onto zs (delete_token t ys)
unfolding rev_onto delete_token count
delete-rev_onto t [] ys h = refl
delete-rev_onto t (z ∷ zs) ys h =
    let other : (z.token == t) ≡ false = ground arith in
    delete-rev_onto t zs (z ∷ ys) (ground arith)
    ∙ ap (λ (b : Bool). rev_onto zs (if b then ys else z ∷ delete_token t ys)) other

count-rev_onto :
    (t : ℕ) (zs ys : List QueueRecord) → count t (rev_onto zs ys) ≡ count t zs + count t ys
unfolding rev_onto count
count-rev_onto t [] ys = omega arith
count-rev_onto t (z ∷ zs) ys = omega (arith, count-rev_onto t zs (z ∷ ys))

sweep-cons :
    (w : Readings) (now : ℕ) (z : QueueRecord) (zs : List QueueRecord)
    → sweep_queue w now (z ∷ zs)
      ≡ (if is_gone w now z then sweep_queue w now zs else z ∷ sweep_queue w now zs)
unfolding sweep_queue
sweep-cons w now z zs = ground arith

rev-if :
    (b : Bool) (z : QueueRecord) (zs ys : List QueueRecord)
    → rev_onto (if b then zs else z ∷ zs) ys ≡ rev_onto zs (if b then ys else z ∷ ys)
unfolding rev_onto
rev-if true z zs ys = refl
rev-if false z zs ys = refl

sweep-rev_onto :
    (w : Readings) (now : ℕ) (zs ys : List QueueRecord)
    → sweep_queue w now (rev_onto zs ys) ≡ rev_onto (sweep_queue w now zs) (sweep_queue w now ys)
unfolding rev_onto
sweep-rev_onto w now [] ys = unfold sweep_queue in refl
sweep-rev_onto w now (z ∷ zs) ys =
    let gone = is_gone w now z in
    sweep-rev_onto w now zs (z ∷ ys)
    ∙ (ap (rev_onto (sweep_queue w now zs)) (sweep-cons w now z ys)
        ∙ (sym (rev-if gone z (sweep_queue w now zs) (sweep_queue w now ys))
            ∙ ap (λ (rs : List QueueRecord). rev_onto rs (sweep_queue w now ys))
                (sym (sweep-cons w now z zs))))

delete-first : (z : QueueRecord) (ys : List QueueRecord) → delete_token z.token (z ∷ ys) ≡ ys
unfolding delete_token
delete-first z ys =
    ap (λ (b : Bool). if b then ys else z ∷ delete_token z.token ys) (==_self z.token)

onto-if :
    (b : Bool) (z : QueueRecord) (zs ys : List QueueRecord)
    → (if b then rev_onto zs ys else rev_onto zs (z ∷ ys)) ≡ rev_onto zs (if b then ys else z ∷ ys)
onto-if true z zs ys = refl
onto-if false z zs ys = refl

round-rev_onto :
    (w : Readings) (now : ℕ) (z : QueueRecord) (zs ys : List QueueRecord)
    → count z.token zs ≡ 0
    → expire_round w now (some z) (rev_onto zs (z ∷ ys))
      ≡ rev_onto zs (if is_gone w now z then ys else z ∷ ys)
unfolding expire_round
round-rev_onto w now z zs ys apart =
    ap (λ (rs : List QueueRecord). if is_gone w now z then rs else rev_onto zs (z ∷ ys))
      (delete-rev_onto z.token zs (z ∷ ys) apart ∙ ap (rev_onto zs) (delete-first z ys))
    ∙ onto-if (is_gone w now z) z zs ys

get-last :
    (z : QueueRecord) (zs ys : List QueueRecord)
    → get_elem? (rev_onto zs (z ∷ ys)) (length zs) ≡ some z
unfolding get_elem?
get-last z zs ys =
    let e : length zs ≡ length zs + 0 = omega arith in
    ap (get_elem? (rev_onto zs (z ∷ ys))) e ∙ get-rev_onto zs 0 (z ∷ ys)

loop-rev_onto :
    (w : Readings) (now : ℕ) (zs ys : List QueueRecord)
    → ((t : ℕ) → count t zs ≤ 1)
    → expire_loop w now (length zs) (rev_onto zs ys) ≡ rev_onto (sweep_queue w now zs) ys
unfolding expire_loop rev_onto count
loop-rev_onto w now [] ys apart = unfold sweep_queue in refl
loop-rev_onto w now (z ∷ zs) ys apart =
    let queue = rev_onto zs (z ∷ ys) in
    let left = if is_gone w now z then ys else z ∷ ys in
    let single = apart z.token in
    let own = ==_self z.token in
    ap (λ (o : Option QueueRecord). expire_loop w now (length zs) (expire_round w now o queue))
      (get-last z zs ys)
    ∙ (ap (expire_loop w now (length zs)) (round-rev_onto w now z zs ys (ground arith))
        ∙ (loop-rev_onto w now zs left (λ t. omega (arith, apart t))
            ∙ (sym (rev-if (is_gone w now z) z (sweep_queue w now zs) ys)
                ∙ ap (λ (rs : List QueueRecord). rev_onto rs ys) (sym (sweep-cons w now z zs)))))

twice-rev_onto : (zs ys : List QueueRecord) → rev_onto (rev_onto zs ys) [] ≡ rev_onto ys zs
unfolding rev_onto
twice-rev_onto [] ys = refl
twice-rev_onto (z ∷ zs) ys = twice-rev_onto zs (z ∷ ys)

length-rev_onto : (zs ys : List QueueRecord) → length (rev_onto zs ys) ≡ length zs + length ys
unfolding rev_onto
length-rev_onto [] ys = omega arith
length-rev_onto (z ∷ zs) ys = omega (arith, length-rev_onto zs (z ∷ ys))

-- In a queue that holds no record twice, the loop over the indexes, from the last to the first, which
-- removes each record that is due or not runnable by its identity while it runs, leaves exactly what
-- `expire` is modelled to leave: the records that are neither, in the order they had.
pub expire_loop-sweeps :
    (w : Readings) (now : ℕ) (queue : List QueueRecord)
    → ((t : ℕ) → count t queue ≤ 1)
    → expire_loop w now (length queue) queue ≡ sweep_queue w now queue
unfolding rev_onto count sweep_queue
expire_loop-sweeps w now queue apart =
    let zs = rev_onto queue [] in
    let back : rev_onto zs [] ≡ queue = twice-rev_onto queue [] in
    let same : length queue ≡ length zs = omega (arith, length-rev_onto queue []) in
    let apart' : (t : ℕ) → count t zs ≤ 1 =
      λ t. omega (arith, count-rev_onto t queue [], apart t) in
    ap (λ n. expire_loop w now n queue) same
    ∙ (ap (expire_loop w now (length zs)) (sym back)
        ∙ (loop-rev_onto w now zs [] apart'
            ∙ (sym (sweep-rev_onto w now zs []) ∙ ap (sweep_queue w now) back)))
