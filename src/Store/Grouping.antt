-- ===== src/Store/Grouping.antt =====
-- The events of one more attempt, as the check of the evidence groups them
-- (crates/aeon_agent_runtime/src/store.rs).
use genesis_runtime.Store.Evidence.{
  Attempts, group_attempts, is_complete_attempt, validate_attempt, validate_attempts,
}
use genesis_runtime.Common.{
  ==_iff, >>=-eq-ok, Bool-cases, Eq, List, Map, Option-cases, [], append-nil, append_assoc, arith,
  false, get, get_list, if◌then◌else◌, inl, inr, insert, list_eq, nat_eq, none, ok, option_eq,
  push_back, refl, some, true, values, ℕ, ◌++◌, ◌==◌, ◌>>=◌, ◌∷◌, ◌≡◌,
}
use genesis_runtime.Ids.{identifier_eq}
use genesis_runtime.Store.{MissionEvent, MissionEventKind}
use mathlib.Core.Path.{ap}

-- Maps that end in a fresh key.
pub get-append {ℓ} :
    {K V : Type ℓ} ⦃e : Eq K⦄ (k j : K) (v : V) (m : Map K V)
    → get j (m ++ (k, v) ∷ [])
      ≡ elim (get j m) [ none ↦ if k == j then some v else none | some w ↦ some w ]
unfolding get
get-append k j v [] = refl
get-append k j v ((i, w) ∷ m) = ground (arith, get-append k j v m)

pub insert_fresh {ℓ} :
    {K V : Type ℓ} ⦃e : Eq K⦄ (k : K) (v : V) (m : Map K V)
    → get k m ≡ none
    → insert k v m ≡ m ++ (k, v) ∷ []
unfolding get insert
insert_fresh k v [] d = refl
insert_fresh k v ((j, w) ∷ m) d = ground (arith, insert_fresh k v m)

insert_last {ℓ} :
    {K V : Type ℓ} ⦃e : Eq K⦄ (k : K) (v w : V) (m : Map K V)
    → get k m ≡ none
    → insert k v (m ++ (k, w) ∷ []) ≡ m ++ (k, v) ∷ []
unfolding get insert
insert_last k v w [] d = ground arith
insert_last k v w ((j, u) ∷ m) d = ground (arith, insert_last k v w m)

pub values-append {ℓ} :
    {K V : Type ℓ} ⦃e : Eq K⦄ (m n : Map K V) → values (m ++ n) ≡ values m ++ values n
unfolding values
values-append [] n = refl
values-append ((k, v) ∷ m) n = ap (λ vs. v ∷ vs) (values-append m n)

-- Events of one attempt with given kinds.
abbrev pub Tagged : ℕ → List MissionEvent → List MissionEventKind → Type 0
Tagged id [] [] = Unit
Tagged id [] (k ∷ ks) = ⊥
Tagged id (e ∷ es) [] = ⊥
Tagged id (e ∷ es) (k ∷ ks) = (e.attempt_id ≡ some id) × (e.kind ≡ k) × Tagged id es ks

pub Tagged-append :
    (id : ℕ) (es fs : List MissionEvent) (ks ls : List MissionEventKind)
    → Tagged id es ks
    → Tagged id fs ls
    → Tagged id (es ++ fs) (ks ++ ls)
Tagged-append id [] fs [] ls t u = u
Tagged-append id [] fs (k ∷ ks) ls t u = absurd t
Tagged-append id (e ∷ es) fs [] ls t u = absurd t
Tagged-append id (e ∷ es) fs (k ∷ ks) ls (a, b, t) u = (a, b, Tagged-append id es fs ks ls t u)

group_attempts-append :
    (xs ys : List MissionEvent) (m : Attempts)
    → group_attempts (xs ++ ys) m ≡ (group_attempts xs m >>= group_attempts ys)
unfolding group_attempts
group_attempts-append [] ys m = refl
group_attempts-append (e ∷ xs) ys m = elim (Option-cases e.attempt_id) [
  | inl q ↦ rw q refl
  | inr (id, q) ↦ elim (Bool-cases (id == 0)) [
    | inl z ↦ rw (q, z) refl
    | inr n ↦ rw (q, n) (group_attempts-append xs ys (push_back id e.kind m))
  ]
]

pub get_list-last :
    (id : ℕ) (ls : List MissionEventKind) (m : Attempts)
    → get id m ≡ none
    → get_list id (m ++ (id, ls) ∷ []) ≡ ls
unfolding get_list
get_list-last id ls m d = ground (arith, get-append id id ls m, d, (==_iff id id).1 refl)

push_back_last :
    (id : ℕ) (k : MissionEventKind) (ls : List MissionEventKind) (m : Attempts)
    → get id m ≡ none
    → push_back id k (m ++ (id, ls) ∷ []) ≡ m ++ (id, ls ++ k ∷ []) ∷ []
unfolding push_back
push_back_last id k ls m d = cc (get_list-last id ls m d, insert_last id (ls ++ k ∷ []) ls m d)

push_back_new :
    (id : ℕ) (k : MissionEventKind) (m : Attempts)
    → get id m ≡ none
    → push_back id k m ≡ m ++ (id, k ∷ []) ∷ []
unfolding push_back get_list
push_back_new id k m d =
    let start : get_list id m ≡ [] = ground arith in cc (start, insert_fresh id (k ∷ []) m d)

-- Further events of an attempt that is the last of the map.
group_attempts-last :
    (id : ℕ) (es : List MissionEvent) (ks ls : List MissionEventKind) (m : Attempts)
    → (id == 0) ≡ false
    → get id m ≡ none
    → Tagged id es ks
    → group_attempts es (m ++ (id, ls) ∷ []) ≡ ok (m ++ (id, ls ++ ks) ∷ [])
unfolding group_attempts
group_attempts-last id [] [] ls m z d t = rw (append-nil ls) refl
group_attempts-last id [] (k ∷ ks) ls m z d t = absurd t
group_attempts-last id (e ∷ es) [] ls m z d t = absurd t
group_attempts-last id (e ∷ es) (k ∷ ks) ls m z d (a, b, t) =
    let rest = group_attempts-last id es ks (ls ++ k ∷ []) m z d t in
    rw (a, z, b, push_back_last id k ls m d, rest, append_assoc ls (k ∷ []) ks) refl

-- The events of a new attempt make one more entry.
pub group_attempts-new :
    (id : ℕ) (xs es : List MissionEvent) (kinds : List MissionEventKind) (m : Attempts)
    → (id == 0) ≡ false
    → get id m ≡ none
    → is_complete_attempt kinds ≡ true
    → Tagged id es kinds
    → group_attempts xs [] ≡ ok m
    → group_attempts (xs ++ es) [] ≡ ok (m ++ (id, kinds) ∷ [])
unfolding group_attempts is_complete_attempt
group_attempts-new id xs es [] m z d c t g = absurd (cc (c))
group_attempts-new id xs [] (k ∷ ks) m z d c t g = absurd t
group_attempts-new id xs (e ∷ es) (k ∷ ks) m z d c (a, b, t) g =
    let rest = group_attempts-last id es ks (k ∷ []) m z d t in
    rw (group_attempts-append xs (e ∷ es) [], g, a, z, b, push_back_new id k m d) rest

pub validate_attempts-append :
    (xs : List (List MissionEventKind)) (ks : List MissionEventKind)
    → validate_attempts xs ≡ ok tt
    → is_complete_attempt ks ≡ true
    → validate_attempts (xs ++ ks ∷ []) ≡ ok tt
unfolding validate_attempts validate_attempt
validate_attempts-append [] ks v c = rw c refl
validate_attempts-append (x ∷ xs) ks v c =
    let (_, first, rest) = >>=-eq-ok (validate_attempt x) (λ _. validate_attempts xs) v in
    rw first (validate_attempts-append xs ks rest c)
