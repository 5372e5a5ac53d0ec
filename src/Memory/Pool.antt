-- ===== src/Memory/Pool.antt =====
-- src/memory/pool.rs: objects that are handed out and come back. What the factory makes is an argument
-- of the operations that may call it.
use skylet.Prelude.{
  ℕ, suc, ◌+◌, ◌≤◌, ◌<◌, ◌≡◌, refl, Option, none, some, List, [], ◌∷◌, ◌++◌, ltb, if◌then◌else◌,
  u64_mod, arith,
}
use skylet.Prelude.Lists.{length, length-append}
use skylet.Memory.{wrapping_add, wrapping_sub}

pub record ObjectPool (T : Type 0) : Type 0 where
  pub pool : List T
  pub in_use : ℕ
  pub max_size : ℕ

module _ {T : Type 0} where
  abbrev pub new_pool : ℕ → ObjectPool T
  new_pool max_size = record { pool = []; in_use = 0; max_size = max_size }

  abbrev pub pop_front : T → List T → T × List T
  pop_front made [] = (made, [])
  pop_front made (x ∷ xs) = (x, xs)

  -- The object that is handed out, and the pool behind it.
  unfoldable pub get : T → ObjectPool T → T × ObjectPool T
  get made p =
      let (value, rest) = pop_front made p.pool in
      (value, record p { pool = rest; in_use = wrapping_add p.in_use 1 })

  unfoldable pub return_object : T → ObjectPool T → ObjectPool T
  return_object value p = record p {
    pool = if ltb (length p.pool) p.max_size then p.pool ++ value ∷ [] else p.pool;
    in_use = wrapping_sub p.in_use 1;
  }

  -- The end of a handle, which is empty where the object was taken out of it.
  unfoldable pub drop_handle : Option T → ObjectPool T → ObjectPool T
  unfolding return_object
  drop_handle none p = p
  drop_handle (some value) p = return_object value p

  unfoldable pub total_count : ObjectPool T → ℕ
  total_count p = wrapping_add p.in_use (length p.pool)

  unfoldable pub clear : ObjectPool T → ObjectPool T
  clear p = record p { pool = [] }

  abbrev pub refilled : ℕ → List T → List T → List T
  refilled max_size [] xs = xs
  refilled max_size (made ∷ ms) xs =
      refilled max_size ms (if ltb (length xs) max_size then xs ++ made ∷ [] else xs)

  unfoldable pub prefill : List T → ObjectPool T → ObjectPool T
  prefill makes p = record p { pool = refilled p.max_size makes p.pool }

  -- The steps of a pool with `held` handles that have their object and `taken` ones that lost it.
  pub data Step (p : ObjectPool T) : ℕ → ℕ → ObjectPool T → ℕ → ℕ → Type 0 where
    hand_out : {h t : ℕ} (made : T) → suc (h + t) < u64_mod → Step p h t (get made p).1 (suc h) t
    give_back : {h t : ℕ} (value : T) → Step p (suc h) t (drop_handle (some value) p) h t
    take : {h t : ℕ} → Step p (suc h) t (drop_handle none p) h (suc t)
    fill : {h t : ℕ} (makes : List T) → Step p h t (prefill makes p) h t
    empty : {h t : ℕ} → Step p h t (clear p) h t

  pub data Reach (max_size : ℕ) : ObjectPool T → ℕ → ℕ → Type 0 where
    start : Reach max_size (new_pool max_size) 0 0
    later :
        {p q : ObjectPool T} {h t i u : ℕ}
        → Reach max_size p h t
        → Step p h t q i u
        → Reach max_size q i u

  pub record IsCounted (max_size : ℕ) (p : ObjectPool T) (h t : ℕ) : Type 0 where
    pub kept : p.max_size ≡ max_size
    pub bound : length p.pool ≤ max_size
    pub counted : p.in_use ≡ h + t
    pub word : h + t < u64_mod

  length-refilled : (m : ℕ) (ms xs : List T) → length xs ≤ m → length (refilled m ms xs) ≤ m
  length-refilled m [] xs h = h
  length-refilled m (made ∷ ms) xs h =
      length-refilled m ms _ (ground (arith, h, length-append xs (made ∷ [])))

  length-pop_front : (made : T) (xs : List T) → length (pop_front made xs).1 ≤ length xs
  length-pop_front made [] = omega arith
  length-pop_front made (x ∷ xs) = omega arith

  step-IsCounted :
      (m : ℕ) {p q : ObjectPool T} {h t i u : ℕ}
      → IsCounted m p h t
      → Step p h t q i u
      → IsCounted m q i u
  unfolding get drop_handle return_object prefill clear
  step-IsCounted m {p} c (hand_out made w) = record {
    kept = c.kept;
    bound = omega (arith, c.bound, length-pop_front made p.pool);
    counted = omega (arith, c.counted, w);
    word = omega (arith, w);
  }
  step-IsCounted m {p} c (give_back value) = record {
    kept = c.kept;
    bound = ground (arith, c.bound, c.kept, length-append p.pool (value ∷ []));
    counted = omega (arith, c.counted, c.word);
    word = omega (arith, c.word);
  }
  step-IsCounted m c take = record {
    kept = c.kept;
    bound = c.bound;
    counted = omega (arith, c.counted);
    word = omega (arith, c.word);
  }
  step-IsCounted m {p} c (fill makes) = record {
    kept = c.kept;
    bound =
        omega
          (arith, length-refilled p.max_size makes p.pool (omega (arith, c.kept, c.bound)), c.kept);
    counted = c.counted;
    word = c.word;
  }
  step-IsCounted m c empty = record {
    kept = c.kept;
    bound = omega arith;
    counted = c.counted;
    word = c.word;
  }

  -- However objects are handed out, given back, taken for good, made in advance and thrown away, a pool
  -- never holds more of them than its size, and counts as in use those that are held by a handle and
  -- those that were taken, which it never stops to count.
  pub reach-IsCounted : (m : ℕ) (p : ObjectPool T) (h t : ℕ) → Reach m p h t → IsCounted m p h t
  reach-IsCounted m _ _ _ start = record {
    kept = refl;
    bound = omega arith;
    counted = refl;
    word = omega arith;
  }
  reach-IsCounted m _ _ _ (later {p} {h = h} {t = t} r s) =
      step-IsCounted m (reach-IsCounted m p h t r) s
