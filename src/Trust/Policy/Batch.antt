-- ===== src/Trust/Policy/Batch.antt =====
-- The filter of many candidates decides on each as the check of one does.
use vimla_ai.Common.{
  ℕ, ◌≡◌, refl, ap, ◌∙◌, Bool, true, false, Bool-cases, inl, inr, not, ◌&&◌, ◌||◌, List, [], ◌∷◌,
  All, any, arith, ◌==◌,
}
use vimla_ai.Common.{==_refl, ◌⊎◌}
use vimla_ai.Billing.Tables.{filter_rows}
use vimla_ai.Trust.Policy.{
  UserBlock, has_id, unique, is_block, can_interact, other_of, excluded_ids, discoverable,
  filter_discoverable_user_ids,
}

has_id-cons : (id x : ℕ) (xs : List ℕ) → has_id id (x ∷ xs) ≡ x == id || has_id id xs
unfolding has_id
has_id-cons id x xs = refl

has_id-nil : (id : ℕ) → has_id id [] ≡ false
unfolding has_id
has_id-nil id = refl

-- Seen from a peer, the rows that the query reads exclude it exactly if there is a block.
has_id-excluded_ids :
    (actor id : ℕ) (peers : List ℕ) (blocks : List UserBlock)
    → (id == actor) ≡ false
    → has_id id peers ≡ true
    → has_id id (excluded_ids actor peers blocks)
      ≡ any (λ row. is_block actor id row || is_block id actor row) blocks
unfolding excluded_ids filter_rows
has_id-excluded_ids actor id peers [] other peer = has_id-nil id
has_id-excluded_ids actor id peers (row ∷ rows) other peer =
    let later = has_id-excluded_ids actor id peers rows other peer in
    let first = has_id-cons id (other_of actor row) (excluded_ids actor peers rows) in
    elim (Bool-cases (row.blocker_user_id == id)) [
      | inl by ↦ elim (Bool-cases (row.blocked_user_id == id)) [
        | inl of ↦ ground (arith, later, first)
        | inr away ↦ ground (arith, later, first)
      ]
      | inr away ↦ elim (Bool-cases (row.blocked_user_id == id)) [
        | inl of ↦ ground (arith, later, first)
        | inr away' ↦ ground (arith, later, first)
      ]
    ]

filter_rows-same :
    {A : Type 0} (p q : A → Bool) (xs : List A)
    → All (λ x. p x ≡ q x) xs
    → filter_rows p xs ≡ filter_rows q xs
unfolding filter_rows
filter_rows-same p q [] h = refl
filter_rows-same p q (x ∷ xs) h = rw (h.0, filter_rows-same p q xs h.1) refl

-- What holds of every id that a list has holds of all of its ids.
All-has_id : (P : ℕ → Type 0) (ids : List ℕ) → ((id : ℕ) → has_id id ids ≡ true → P id) → All P ids
All-has_id P [] h = tt
All-has_id P (x ∷ xs) h = (
  h x (has_id-cons x x xs ∙ rw (==_refl x) refl),
  All-has_id P xs (λ id has. h id (has_id-cons id x xs ∙ rw has (ground arith))),
)

has_id-filter_rows :
    (p : ℕ → Bool) (id : ℕ) (ids : List ℕ) → has_id id (filter_rows p ids) ≡ has_id id ids && p id
unfolding filter_rows
has_id-filter_rows p id [] = rw (has_id-nil id) refl
has_id-filter_rows p id (x ∷ xs) =
    let later = has_id-filter_rows p id xs in
    let all_ids = has_id-cons id x xs in
    let kept = has_id-cons id x (filter_rows p xs) in
    elim (Bool-cases (x == id)) [
      | inl same ↦
          let equal : x ≡ id = ground arith in
          rw equal (ground (arith, later, all_ids, kept, equal))
      | inr different ↦ ground (arith, later, all_ids, kept)
    ]

-- The actor, or a peer.
abbrev IsKnown : ℕ → List ℕ → ℕ → Type 0
IsKnown actor peers id =
    ((id == actor) ≡ true) ⊎ (((id == actor) ≡ false) × (has_id id peers ≡ true))

decides_same :
    (actor id : ℕ) (peers : List ℕ) (blocks : List UserBlock)
    → IsKnown actor peers id
    → (id == actor || not (has_id id (excluded_ids actor peers blocks)))
      ≡ can_interact actor id blocks
unfolding can_interact
decides_same actor id peers blocks (inl own) = ground arith
decides_same actor id peers blocks (inr (other, peer)) =
    let excluded = has_id-excluded_ids actor id peers blocks other peer in
    ground (arith, excluded, other)

filter_rows-kept :
    (p : ℕ → Bool) (ids : List ℕ) → All (λ id. true ≡ p id) ids → ids ≡ filter_rows p ids
unfolding filter_rows
filter_rows-kept p [] h = refl
filter_rows-kept p (x ∷ xs) h = rw (← h.0) (ap (λ rest. x ∷ rest) (filter_rows-kept p xs h.1))

alone_interacts :
    (actor id : ℕ) (blocks : List UserBlock)
    → IsKnown actor [] id
    → true ≡ can_interact actor id blocks
unfolding can_interact
alone_interacts actor id blocks (inl own) = ground arith
alone_interacts actor id blocks (inr (other, peer)) = let none = has_id-nil id in ground arith

discoverable-filter_rows :
    (actor : ℕ) (ids peers : List ℕ) (blocks : List UserBlock)
    → ((id : ℕ) → has_id id ids ≡ true → IsKnown actor peers id)
    → discoverable actor ids peers blocks ≡ filter_rows (λ id. can_interact actor id blocks) ids
discoverable-filter_rows actor ids [] blocks known =
    filter_rows-kept _ ids
      (All-has_id _ ids (λ id has. alone_interacts actor id blocks (known id has)))
discoverable-filter_rows actor ids (x ∷ xs) blocks known =
    filter_rows-same _ _ ids
      (All-has_id _ ids (λ id has. decides_same actor id (x ∷ xs) blocks (known id has)))

-- The ids that may be found are those of the candidates, each once and in the order of their first
-- places, that the check of one user lets interact with the actor.
pub filter_discoverable_user_ids-can_interact :
    (actor : ℕ) (candidates : List ℕ) (blocks : List UserBlock)
    → filter_discoverable_user_ids actor candidates blocks
      ≡ filter_rows (λ id. can_interact actor id blocks) (unique candidates)
unfolding filter_discoverable_user_ids
filter_discoverable_user_ids-can_interact actor candidates blocks =
    let ids = unique candidates in
    let peers = filter_rows (λ id. not (id == actor)) ids in
    discoverable-filter_rows actor ids peers blocks (λ id has.
      let kept = has_id-filter_rows (λ id. not (id == actor)) id ids in
      elim (Bool-cases (id == actor)) [
        | inl own ↦ inl own
        | inr other ↦ inr (other, kept ∙ rw (has, other) refl)
      ])
