-- ===== src/Store/Counting.antt =====
-- The consumed records of one more attempt, as the check of the evidence counts them
-- (crates/aeon_agent_runtime/src/store.rs).
use genesis_runtime.Common.{
  ==_iff, Bool-cases, List, Map, Option-cases, [], any, arith, count_if, err, event_incomplete,
  false, get, get-insert, get_list, if◌then◌else◌, inl, inr, insert, list_eq, ltb, nat_eq, none, ok,
  option_eq, refl, some, true, ℕ, ◌++◌, ◌==◌, ◌>>=◌, ◌∷◌, ◌≡◌,
}
use genesis_runtime.Ids.{AuthorizationId, identifier_eq}
use genesis_runtime.Store.{AuthorizationRecord, MissionEventKind, is_consumed}
use genesis_runtime.Store.Evidence.{
  Attempts, add_consumed, check_consumed, count_consumed, is_consumption,
}
use mathlib.Core.Path.{ap, ◌∙◌}
use genesis_runtime.Store.Grouping.{get-append, insert_fresh}

-- The steps of the loop.
count_consumed-skip :
    (bound : Map AuthorizationId ℕ) (r : AuthorizationRecord) (rs : List AuthorizationRecord)
    (m : Map ℕ ℕ)
    → is_consumed r.state ≡ false
    → count_consumed bound (r ∷ rs) m ≡ count_consumed bound rs m
unfolding count_consumed
count_consumed-skip bound r rs m q = ground arith

count_consumed-unbound :
    (bound : Map AuthorizationId ℕ) (r : AuthorizationRecord) (rs : List AuthorizationRecord)
    (m : Map ℕ ℕ)
    → is_consumed r.state ≡ true
    → get r.record_id bound ≡ none
    → count_consumed bound (r ∷ rs) m ≡ err event_incomplete
unfolding count_consumed
count_consumed-unbound bound r rs m q g = ground arith

count_consumed-bound :
    (bound : Map AuthorizationId ℕ) (r : AuthorizationRecord) (rs : List AuthorizationRecord)
    (m : Map ℕ ℕ) (k : ℕ)
    → is_consumed r.state ≡ true
    → get r.record_id bound ≡ some k
    → count_consumed bound (r ∷ rs) m ≡ count_consumed bound rs (add_consumed k m)
unfolding count_consumed
count_consumed-bound bound r rs m k q g = ground arith

-- A binding of an identifier that no record has changes no count.
count_consumed-insert :
    (id : AuthorizationId) (n : ℕ) (bound : Map AuthorizationId ℕ)
    (records : List AuthorizationRecord) (m : Map ℕ ℕ)
    → any (λ r. r.record_id == id) records ≡ false
    → count_consumed (insert id n bound) records m ≡ count_consumed bound records m
unfolding any count_consumed
count_consumed-insert id n bound [] m fresh = refl
count_consumed-insert id n bound (r ∷ records) m fresh =
    let other : (id == r.record_id) ≡ false = ground (arith, fresh) in
    let later : any (λ x. x.record_id == id) records ≡ false = ground (arith, fresh) in
    let same : get r.record_id (insert id n bound) ≡ get r.record_id bound =
      ground (arith, get-insert id r.record_id n bound, other) in
    let b = insert id n bound in
    elim (Bool-cases (is_consumed r.state)) [
      | inl q ↦ elim (Option-cases (get r.record_id bound)) [
        | inl g ↦ cc (
          count_consumed-unbound b r records m q (same ∙ g),
          count_consumed-unbound bound r records m q g,
        )
        | inr (k, g) ↦ cc (
          count_consumed-bound b r records m k q (same ∙ g),
          count_consumed-bound bound r records m k q g,
          count_consumed-insert id n bound records (add_consumed k m) later,
        )
      ]
      | inr q ↦ cc (
        count_consumed-skip b r records m q,
        count_consumed-skip bound r records m q,
        count_consumed-insert id n bound records m later,
      )
    ]

count_consumed-append :
    (bound : Map AuthorizationId ℕ) (xs ys : List AuthorizationRecord) (m : Map ℕ ℕ)
    → count_consumed bound (xs ++ ys) m ≡ (count_consumed bound xs m >>= count_consumed bound ys)
unfolding count_consumed
count_consumed-append bound [] ys m = refl
count_consumed-append bound (r ∷ xs) ys m = elim (Bool-cases (is_consumed r.state)) [
  | inr q ↦ cc (count_consumed-skip bound r xs m q, count_consumed-append bound xs ys m)
  | inl q ↦ elim (Option-cases (get r.record_id bound)) [
    | inl g ↦
        rw
          (count_consumed-unbound bound r (xs ++ ys) m q g, count_consumed-unbound bound r xs m q g)
          refl
    | inr (k, g) ↦ cc (
      count_consumed-bound bound r xs m k q g,
      count_consumed-append bound xs ys (add_consumed k m),
    )
  ]
]

add_consumed-new : (n : ℕ) (m : Map ℕ ℕ) → get n m ≡ none → add_consumed n m ≡ m ++ (n, 1) ∷ []
unfolding add_consumed
add_consumed-new n m d = ground (arith, insert_fresh n 1 m d)

-- One more record, of a new identifier that is bound to a new attempt.
pub count_consumed-new :
    (r : AuthorizationRecord) (n : ℕ) (bound : Map AuthorizationId ℕ)
    (records : List AuthorizationRecord) (m : Map ℕ ℕ)
    → any (λ x. x.record_id == r.record_id) records ≡ false
    → get n m ≡ none
    → count_consumed bound records [] ≡ ok m
    → count_consumed (insert r.record_id n bound) (records ++ r ∷ []) []
      ≡ ok (if is_consumed r.state then m ++ (n, 1) ∷ [] else m)
unfolding count_consumed
count_consumed-new r n bound records m fresh d c =
    let b = insert r.record_id n bound in
    let start = count_consumed-insert r.record_id n bound records [] fresh ∙ c in
    let split = count_consumed-append b records (r ∷ []) [] in
    let found : get r.record_id b ≡ some n = ground (
      arith,
      get-insert r.record_id r.record_id n bound,
      (==_iff r.record_id r.record_id).1 refl,
    ) in
    elim (Bool-cases (is_consumed r.state)) [
      | inl q ↦
          rw (split, start, q)
            (count_consumed-bound b r [] m n q found ∙ ap ok (add_consumed-new n m d))
      | inr q ↦ rw (split, start, q) (count_consumed-skip b r [] m q)
    ]

-- The events of a new attempt keep the old counts covered.
pub check_consumed-new :
    (n : ℕ) (ks : List MissionEventKind) (attempts : Attempts) (counts : Map ℕ ℕ)
    → check_consumed attempts counts ≡ ok tt
    → check_consumed (attempts ++ (n, ks) ∷ []) counts ≡ ok tt
unfolding check_consumed get_list count_if
check_consumed-new n ks attempts [] c = refl
check_consumed-new n ks attempts ((k, v) ∷ counts) c =
    ground (arith, get-append n k ks attempts, check_consumed-new n ks attempts counts)

pub check_consumed-append :
    (attempts : Attempts) (counts : Map ℕ ℕ) (n v : ℕ)
    → check_consumed attempts counts ≡ ok tt
    → ltb (count_if is_consumption (get_list n attempts)) v ≡ false
    → check_consumed attempts (counts ++ (n, v) ∷ []) ≡ ok tt
unfolding check_consumed
check_consumed-append attempts [] n v c q = rw q refl
check_consumed-append attempts ((k, w) ∷ counts) n v c q =
    ground (arith, check_consumed-append attempts counts n v, q)
