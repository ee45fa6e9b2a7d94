-- ===== src/Store/History/Pages.antt =====
-- internal/store/read.go: the pages of a history.
use tracker.Base.{
  ℕ, zero, suc, ◌+◌, ◌≤◌, ◌≡◌, arith, refl, true, some, List, [], ◌∷◌, ◌++◌, map, take, drop,
  length, ℤ, pos, String,
}
use tracker.Clock.{Time}
use tracker.Store.{Device}
use tracker.Store.Ingest.{Stored}
use tracker.Store.History.{
  HistoryFix, clamp_limit, clamp_offset, selected, history_fix, device_history,
}

zero_add : (m : ℕ) → 0 + m ≡ m
zero_add m = omega arith

suc_add : (n m : ℕ) → suc n + m ≡ suc (n + m)
suc_add n m = omega arith

module _ {A B : Type 0} (f : A → B) where
  take-pages :
      (n m : ℕ) (xs : List A)
      → map f (take n xs) ++ map f (take m (drop n xs)) ≡ map f (take (n + m) xs)
  take-pages zero m xs = rw (zero_add m) refl
  take-pages (suc n) zero [] = rw (suc_add n 0) refl
  take-pages (suc n) (suc m) [] = rw (suc_add n (suc m)) refl
  take-pages (suc n) m (x ∷ xs) = rw (suc_add n m) (rw (take-pages n m xs) refl)

  drop-pages : (o n : ℕ) (xs : List A) → drop (o + n) xs ≡ drop n (drop o xs)
  drop-pages zero n xs = rw (zero_add n) refl
  drop-pages (suc o) zero [] = rw (suc_add o 0) refl
  drop-pages (suc o) (suc n) [] = rw (suc_add o (suc n)) refl
  drop-pages (suc o) n (x ∷ xs) = rw (suc_add o n) (drop-pages o n xs)

  length-page : (n : ℕ) (xs : List A) → length (map f (take n xs)) ≤ n
  length-page zero xs = omega arith
  length-page (suc n) [] = omega arith
  length-page (suc n) (x ∷ xs) = omega (arith, length-page n xs)

clamp_limit-bounded : (l : ℕ) → 1 ≤ l → l ≤ 1000 → clamp_limit (pos l) ≡ l
unfolding clamp_limit
clamp_limit-bounded l low high = ground arith

clamp_offset-pos : (o : ℕ) → clamp_offset (pos o) ≡ o
unfolding clamp_offset
clamp_offset-pos o = ground arith

-- A page holds at most a thousand entries.
pub clamp_limit-le : (limit : ℤ) → clamp_limit limit ≤ 1000
unfolding clamp_limit
clamp_limit-le limit = ground arith

module _ {F : Type 0} (devices : List Device) (rows : List (Stored F))
    (family_id device_id : String) (from to : Time) where
  -- Pages tile: two consecutive pages, of at least one entry each and a thousand together, are
  -- the page of both lengths.
  pub device_history-pages :
      (l m o : ℕ) (page next : List (HistoryFix F))
      → 1 ≤ l
      → 1 ≤ m
      → l + m ≤ 1000
      → device_history true devices rows family_id device_id from to (pos l) (pos o) ≡ some page
      → device_history true devices rows family_id device_id from to (pos m) (pos (o + l))
        ≡ some next
      → device_history true devices rows family_id device_id from to (pos (l + m)) (pos o)
        ≡ some (page ++ next)
  unfolding device_history
  device_history-pages l m o page next some_rows more_rows fits here there =
      let all = selected devices rows family_id device_id from to in
      ground (
        arith,
        clamp_limit-bounded l some_rows (omega arith),
        clamp_limit-bounded m more_rows (omega arith),
        clamp_limit-bounded (l + m) (omega arith) fits,
        clamp_offset-pos o,
        clamp_offset-pos (o + l),
        drop-pages (history_fix {F = F}) o l all,
        take-pages (history_fix {F = F}) l m (drop o all),
      )
