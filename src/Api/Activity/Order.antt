-- ===== src/Api/Activity/Order.antt =====
-- wallet-activity-store.ts: the order of a wallet's rows, and what is behind a row of it.
use phygital_wallet.Common.{
  String, ◌≡◌, refl, ap, sym, ◌∙◌, Bool, true, false, List, [], ◌∷◌, ◌++◌, All, All-map, In, ◌⊎◌,
  inl, inr, arith, eqb, ◌==◌, eq_iff, Bool-cases, ◌↔◌,
}
use phygital_wallet.Api.Activity.{
  ActivityTable, rows_of, ActivityDbRow, is_after, insert_ordered, order_by, select_where,
}

abbrev pub Trails : ActivityDbRow → ActivityDbRow → Type 0
Trails x r = is_after x.block_time x.id r ≡ true

abbrev pub IsDescending : List ActivityDbRow → Type 0
IsDescending [] = Unit
IsDescending (x ∷ xs) = All (Trails x) xs × IsDescending xs

-- No two rows have one id.
abbrev pub IsDistinct : List ActivityDbRow → Type 0
IsDistinct [] = Unit
IsDistinct (x ∷ xs) = All (λ r. eqb x.id r.id ≡ false) xs × IsDistinct xs

Trails-trans : (x y z : ActivityDbRow) → Trails x y → Trails y z → Trails x z
Trails-trans x y z h k = ground arith

behind_apart : (x y : ActivityDbRow) → Trails x y → is_after y.block_time y.id x ≡ false
behind_apart x y h = ground arith

behind_other :
    (x y : ActivityDbRow)
    → eqb x.id y.id ≡ false
    → is_after x.block_time x.id y ≡ false
    → Trails y x
behind_other x y e h = ground arith

behind_self : (x : ActivityDbRow) → is_after x.block_time x.id x ≡ false
behind_self x = ground arith

apart_sym : (x y : ActivityDbRow) → eqb x.id y.id ≡ false → eqb y.id x.id ≡ false
apart_sym x y h = ground arith

module _ (P : ActivityDbRow → Type 0) where
  All-insert_ordered :
      (r : ActivityDbRow) (xs : List ActivityDbRow) → P r → All P xs → All P (insert_ordered r xs)
  All-insert_ordered r [] h hs = (h, tt)
  All-insert_ordered r (x ∷ xs) h (k, ks) = elim (Bool-cases (is_after x.block_time x.id r)) [
    | inl e ↦ rw e (k, All-insert_ordered r xs h ks)
    | inr e ↦ rw e (h, (k, ks))
  ]

  pub All-order_by : (xs : List ActivityDbRow) → All P xs → All P (order_by xs)
  All-order_by [] h = tt
  All-order_by (x ∷ xs) (h, hs) = All-insert_ordered x (order_by xs) h (All-order_by xs hs)

  pub All-select_where :
      (p : ActivityDbRow → Bool) (xs : List ActivityDbRow) → All P xs → All P (select_where p xs)
  All-select_where p [] h = tt
  All-select_where p (x ∷ xs) (h, hs) = elim (Bool-cases (p x)) [
    | inl e ↦ rw e (h, All-select_where p xs hs)
    | inr e ↦ rw e (All-select_where p xs hs)
  ]

IsDescending-insert_ordered :
    (r : ActivityDbRow) (xs : List ActivityDbRow)
    → All (λ y. eqb r.id y.id ≡ false) xs
    → IsDescending xs
    → IsDescending (insert_ordered r xs)
IsDescending-insert_ordered r [] apart d = (tt, tt)
IsDescending-insert_ordered r (x ∷ xs) (a, as_) (below, d) =
    elim (Bool-cases (is_after x.block_time x.id r)) [
      | inl e ↦
          rw e (All-insert_ordered (Trails x) r xs e below, IsDescending-insert_ordered r xs as_ d)
      | inr e ↦
          let first : Trails r x = behind_other x r (apart_sym r x a) e in
          rw e ((first, All-map _ _ xs (λ y k. Trails-trans r x y first k) below), (below, d))
    ]

-- Rows with ids of their own are put into one order: each is behind those before it.
pub IsDescending-order_by : (xs : List ActivityDbRow) → IsDistinct xs → IsDescending (order_by xs)
IsDescending-order_by [] h = tt
IsDescending-order_by (x ∷ xs) (apart, h) =
    IsDescending-insert_ordered x (order_by xs) (All-order_by _ xs apart)
      (IsDescending-order_by xs h)

pub IsDistinct-select_where :
    (p : ActivityDbRow → Bool) (xs : List ActivityDbRow)
    → IsDistinct xs
    → IsDistinct (select_where p xs)
IsDistinct-select_where p [] h = tt
IsDistinct-select_where p (x ∷ xs) (apart, h) = elim (Bool-cases (p x)) [
  | inl e ↦ rw e (All-select_where _ p xs apart, IsDistinct-select_where p xs h)
  | inr e ↦ rw e (IsDistinct-select_where p xs h)
]

In-insert_ordered :
    (r y : ActivityDbRow) (xs : List ActivityDbRow)
    → In y (insert_ordered r xs) ↔ ((y ≡ r) ⊎ In y xs)
In-insert_ordered r y [] = (λ h. h, λ h. h)
In-insert_ordered r y (x ∷ xs) = elim (Bool-cases (is_after x.block_time x.id r)) [
  | inr e ↦ rw e (λ h. h, λ h. h)
  | inl e ↦
      let (to, from) = In-insert_ordered r y xs in
      rw e (
        λ h. elim h [
          | inl same ↦ inr (inl same)
          | inr k ↦ elim (to k) [ inl same ↦ inl same | inr l ↦ inr (inr l) ]
        ],
        λ h. elim h [
          | inl same ↦ inr (from (inl same))
          | inr k ↦ elim k [ inl same ↦ inl same | inr l ↦ inr (from (inr l)) ]
        ],
      )
]

-- The order neither loses a row nor adds one.
pub In-order_by : (y : ActivityDbRow) (xs : List ActivityDbRow) → In y (order_by xs) ↔ In y xs
In-order_by y [] = (λ h. h, λ h. h)
In-order_by y (x ∷ xs) =
    let (to, from) = In-insert_ordered x y (order_by xs) in
    let (to', from') = In-order_by y xs in
    (
      λ h. elim (to h) [ inl same ↦ inl same | inr k ↦ inr (to' k) ],
      λ h. elim h [ inl same ↦ from (inl same) | inr k ↦ from (inr (from' k)) ],
    )

select_behind :
    (r : ActivityDbRow) (xs : List ActivityDbRow)
    → All (Trails r) xs
    → select_where (is_after r.block_time r.id) xs ≡ xs
select_behind r [] h = refl
select_behind r (x ∷ xs) (h, hs) = rw h (ap (◌∷◌ x) (select_behind r xs hs))

All-at :
    (P : ActivityDbRow → Type 0) (xs ys : List ActivityDbRow) (r : ActivityDbRow)
    → All P (xs ++ r ∷ ys)
    → P r
All-at P [] ys r (h, hs) = h
All-at P (x ∷ xs) ys r (h, hs) = All-at P xs ys r hs

-- What a cursor selects: the rows behind it.
pub select_after :
    (xs ys : List ActivityDbRow) (r : ActivityDbRow)
    → IsDescending (xs ++ r ∷ ys)
    → select_where (is_after r.block_time r.id) (xs ++ r ∷ ys) ≡ ys
select_after [] ys r (below, d) = rw (behind_self r) (select_behind r ys below)
select_after (x ∷ xs) ys r (below, d) =
    rw (behind_apart x r (All-at (Trails x) xs ys r below)) (select_after xs ys r d)

In-select_where :
    (wallet_address : String) (y : ActivityDbRow) (xs : List ActivityDbRow)
    → In y (select_where (λ r. r.wallet_address == wallet_address) xs)
      ↔ (In y xs × (y.wallet_address ≡ wallet_address))
In-select_where w y [] = (λ h. elim h [ ], λ (h, _). elim h [ ])
In-select_where w y (x ∷ xs) =
    let (to, from) = In-select_where w y xs in
    elim (Bool-cases (x.wallet_address == w)) [
      | inl e ↦ rw e (
        λ h. elim h [
          | inl same ↦ (
            inl same,
            ap (λ (r : ActivityDbRow). r.wallet_address) same ∙ (eq_iff x.wallet_address w).0 e,
          )
          | inr k ↦ (inr (to k).0, (to k).1)
        ],
        λ (h, own). elim h [ inl same ↦ inl same | inr k ↦ inr (from (k, own)) ],
      )
      | inr e ↦ rw e (
        λ h. (inr (to h).0, (to h).1),
        λ (h, own). elim h [
          | inl same ↦
              let owned =
                (eq_iff x.wallet_address w).1
                  (ap (λ (r : ActivityDbRow). r.wallet_address) (sym same) ∙ own) in
              absurd (cc)
          | inr k ↦ from (k, own)
        ],
      )
    ]

-- A wallet's rows are the rows of the table that have its address.
pub In-rows_of :
    (wallet_address : String) (t : ActivityTable) (y : ActivityDbRow)
    → In y (rows_of wallet_address t) ↔ (In y t.rows × (y.wallet_address ≡ wallet_address))
In-rows_of w t y =
    let (to, from) = In-order_by y (select_where (λ r. r.wallet_address == w) t.rows) in
    let (to', from') = In-select_where w y t.rows in (λ h. to' (to h), λ h. from (from' h))
