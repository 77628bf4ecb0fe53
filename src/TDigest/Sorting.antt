-- ===== src/TDigest/Sorting.antt =====
-- A stable insertion sort by `first` in fixed point: one result that `std::sort` may give.
use mathlib.Core.List.{Permᴰ}
use mathlib.Core.List.Permᴰ
use win_udpsharded_echo.Prelude.{
  refl, List, [], ◌∷◌, arith, inl, inr, Bool-cases, if◌then◌else◌, All,
}
use win_udpsharded_echo.Float.{◌≼◌}
use win_udpsharded_echo.Float.Fixed.{Fixed, fixed_double}
use win_udpsharded_echo.TDigest.{IsRising, IsAscending, IsSort}

pub insert_sorted : Fixed × Fixed → List (Fixed × Fixed) → List (Fixed × Fixed)
insert_sorted p [] = p ∷ []
insert_sorted p (q ∷ rest) =
    if fixed_double.lt p.0 q.0 then p ∷ q ∷ rest else q ∷ insert_sorted p rest

unfoldable pub insertion_sort : List (Fixed × Fixed) → List (Fixed × Fixed)
unfolding insert_sorted
insertion_sort [] = []
insertion_sort (p ∷ rest) = insert_sorted p (insertion_sort rest)

insert_sorted-perm :
    (p : Fixed × Fixed) (l : List (Fixed × Fixed)) → Permᴰ (p ∷ l) (insert_sorted p l)
unfolding insert_sorted
insert_sorted-perm p [] = Permᴰ.refl (p ∷ [])
insert_sorted-perm p (q ∷ rest) = elim (Bool-cases (fixed_double.lt p.0 q.0)) [
  | inl e ↦ rw (e, insert_sorted) (Permᴰ.refl (p ∷ q ∷ rest))
  | inr e ↦
      rw (e, insert_sorted)
        (Permᴰ.trans (Permᴰ.swap refl refl) (Permᴰ.cons refl (insert_sorted-perm p rest)))
]

insertion_sort-perm : (l : List (Fixed × Fixed)) → Permᴰ l (insertion_sort l)
unfolding insertion_sort
insertion_sort-perm [] = Permᴰ.nil
insertion_sort-perm (p ∷ rest) =
    Permᴰ.trans (Permᴰ.cons refl (insertion_sort-perm rest))
      (insert_sorted-perm p (insertion_sort rest))

IsRising-le : (a b : Fixed) (l : List (Fixed × Fixed)) → a ≼ b → IsRising b l → IsRising a l
IsRising-le a b [] h r = tt
IsRising-le a b ((v, w) ∷ rest) h r = (ground arith, r.1)

insert_sorted-IsRising :
    (low : Fixed) (p : Fixed × Fixed) (l : List (Fixed × Fixed))
    → low ≼ p.0
    → IsRising low l
    → IsRising low (insert_sorted p l)
unfolding insert_sorted
insert_sorted-IsRising low p [] h r = (h, tt)
insert_sorted-IsRising low p ((v, w) ∷ rest) h r = ground (arith, insert_sorted-IsRising v p rest)

insert_sorted-IsAscending :
    (p : Fixed × Fixed) (l : List (Fixed × Fixed))
    → p.0 ≼ p.0
    → IsAscending l
    → IsAscending (insert_sorted p l)
unfolding insert_sorted
insert_sorted-IsAscending p [] h a = (h, tt)
insert_sorted-IsAscending p ((v, w) ∷ rest) h a = ground (arith, insert_sorted-IsRising v p rest)

insertion_sort-IsAscending :
    (l : List (Fixed × Fixed)) → All (λ p. p.0 ≼ p.0) l → IsAscending (insertion_sort l)
unfolding insertion_sort
insertion_sort-IsAscending [] h = tt
insertion_sort-IsAscending (p ∷ rest) h =
    insert_sorted-IsAscending p (insertion_sort rest) h.0 (insertion_sort-IsAscending rest h.1)

-- The laws of the sort can be met.
pub insertion_sort-IsSort : IsSort Fixed insertion_sort
insertion_sort-IsSort = record {
  sort_perm = insertion_sort-perm;
  sort_ascending = insertion_sort-IsAscending;
}
