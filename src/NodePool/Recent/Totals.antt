-- ===== src/NodePool/Recent/Totals.antt =====
-- `RecentProbes` of src/node_pool.rs: sums over the elements of the heap. The sifts keep them, and a
-- removal takes one summand out.
use dht_crawler.Base.{
  ℕ, zero, suc, ◌+◌, ◌-◌, ◌*◌, ◌/◌, ◌<◌, ◌≡◌, ◌≢◌, refl, ap, subst, ℕ_discrete, ◌∙◌, Bool, true,
  false, ◌||◌, ◌==◌, ltb, leb, if◌then◌else◌, List, [], ◌∷◌, length, length-set, get_or, set, take,
  arith, Bool-cases, inl, inr,
}
use dht_crawler.Net.{SocketAddr}
use dht_crawler.NodePool.Recent.{
  RecentProbes, expiry_at, entry_le, swap_expiry, swap, sift_up, sift_down, smaller_child,
  swap_remove, remove_at,
}
use dht_crawler.NodePool.Recent.Sift.{smaller_child_bounds}
use dht_crawler.NodePool.Recent.Steps.{no_element}

module _ {A : Type 0} (f : A → ℕ) where
  unfoldable pub total : List A → ℕ
  total [] = 0
  total (x ∷ xs) = f x + total xs

  pub total-set :
      (xs : List A) (i : ℕ) (v d : A)
      → i < length xs
      → total (set xs i v) + f (get_or xs i d) ≡ total xs + f v
  unfolding total
  total-set [] i v d h = absurd (omega arith)
  total-set (x ∷ xs) zero v d h = omega arith
  total-set (x ∷ xs) (suc i) v d h = omega (arith, total-set xs i v d (omega arith))

  total-take :
      (xs : List A) (n : ℕ) (d : A)
      → length xs ≡ suc n
      → total (take n xs) + f (get_or xs n d) ≡ total xs
  unfolding total
  total-take [] n d h = absurd (omega arith)
  total-take (x ∷ []) zero d h = omega arith
  total-take (x ∷ y ∷ xs) zero d h = absurd (omega arith)
  total-take (x ∷ xs) (suc n) d h = omega (arith, total-take xs n d (omega arith))

module _ {A : Type 0} where
  get_or-set_other :
      (xs : List A) (i j : ℕ) (v d : A) → i ≢ j → get_or (set xs i v) j d ≡ get_or xs j d
  get_or-set_other [] i j v d h = refl
  get_or-set_other (x ∷ xs) zero zero v d h = absurd (h refl)
  get_or-set_other (x ∷ xs) zero (suc j) v d h = refl
  get_or-set_other (x ∷ xs) (suc i) zero v d h = refl
  get_or-set_other (x ∷ xs) (suc i) (suc j) v d h = get_or-set_other xs i j v d (λ e. h (ap suc e))

  get_or-set_same : (xs : List A) (i : ℕ) (v d : A) → i < length xs → get_or (set xs i v) i d ≡ v
  get_or-set_same [] i v d h = absurd (omega arith)
  get_or-set_same (x ∷ xs) zero v d h = refl
  get_or-set_same (x ∷ xs) (suc i) v d h = get_or-set_same xs i v d (omega arith)

module _ (f : ℕ × SocketAddr → ℕ) where
  total-swap :
      (l r : ℕ) (xs : List (ℕ × SocketAddr))
      → l ≢ r
      → l < length xs
      → r < length xs
      → total f (swap_expiry l r xs) ≡ total f xs
  unfolding swap_expiry
  total-swap l r xs apart hl hr =
      let first = total-set f xs l (expiry_at xs r) no_element hl in
      let second =
        total-set f (set xs l (expiry_at xs r)) r (expiry_at xs l) no_element
          (omega (arith, length-set xs l (expiry_at xs r))) in
      omega (arith, first, second, ap f (get_or-set_other xs l r (expiry_at xs r) no_element apart))

  swap_size : (l r : ℕ) (p : RecentProbes) → length (swap l r p).expiry ≡ length p.expiry
  unfolding swap swap_expiry
  swap_size l r p = length-set (set p.expiry l _) r _ ∙ length-set p.expiry l _

  pub sift_up-total :
      (fuel index : ℕ) (p : RecentProbes)
      → index < length p.expiry
      → total f (sift_up fuel index p).expiry ≡ total f p.expiry
  unfolding sift_up swap
  sift_up-total zero index p h = refl
  sift_up-total (suc fuel) index p h =
      let parent = (index - 1) / 2 in
      elim (Bool-cases
        (index == 0 || entry_le (expiry_at p.expiry parent) (expiry_at p.expiry index))) [
          | inl stop ↦ rw stop refl
          | inr on ↦
              let low : parent < index = ground arith in
              rw on (
                sift_up-total fuel parent (swap parent index p)
                  (omega (arith, swap_size parent index p))
                ∙ total-swap parent index p.expiry (omega arith) (omega arith) h)
        ]

  pub sift_down-total :
      (fuel index : ℕ) (p : RecentProbes)
      → total f (sift_down fuel index p).expiry ≡ total f p.expiry
  unfolding sift_down swap
  sift_down-total zero index p = refl
  sift_down-total (suc fuel) index p =
      let child = smaller_child index p.expiry in
      elim (Bool-cases (
        leb (length p.expiry) (index * 2 + 1)
        || entry_le (expiry_at p.expiry index) (expiry_at p.expiry child))) [
          | inl stop ↦ rw stop refl
          | inr on ↦
              let bounds = smaller_child_bounds index p.expiry (ground arith) in
              rw on (
                sift_down-total fuel child (swap index child p)
                ∙ total-swap index child p.expiry (omega arith) (omega arith) bounds.1)
        ]

  total-swap_remove :
      (x n : ℕ) (xs : List (ℕ × SocketAddr))
      → length xs ≡ suc n
      → x < suc n
      → total f (swap_remove x xs) + f (expiry_at xs x) ≡ total f xs
  unfolding swap_remove
  total-swap_remove x n xs size h =
      let last = get_or xs n no_element in
      let last_index : length xs - 1 ≡ n = omega arith in
      let moved = set xs x last in
      let kept = total-take f moved n no_element (length-set xs x last ∙ size) in
      let written = total-set f xs x last no_element (omega arith) in
      let last_moved : get_or moved n no_element ≡ last = elim (ℕ_discrete x n) [
        | yes e ↦
            subst (λ i. get_or moved i no_element ≡ last) e
              (get_or-set_same xs x last no_element (omega arith))
        | no apart ↦ get_or-set_other xs x n last no_element apart
      ] in
      rw last_index (omega (arith, kept, written, ap f last_moved))

  sifted-total :
      (up : Bool) (x : ℕ) (q : RecentProbes)
      → x < length q.expiry
      → total f
          (if up then sift_up (length q.expiry) x q else sift_down (length q.expiry) x q).expiry
        ≡ total f q.expiry
  sifted-total true x q h = sift_up-total (length q.expiry) x q h
  sifted-total false x q h = sift_down-total (length q.expiry) x q

  -- A removal takes the removed element out of every sum over the heap.
  pub remove_at-total :
      (x : ℕ) (p : RecentProbes)
      → x < length p.expiry
      → total f (remove_at x p).expiry + f (expiry_at p.expiry x) ≡ total f p.expiry
  unfolding remove_at
  remove_at-total x p h =
      let left = total-swap_remove x (length p.expiry - 1) p.expiry (omega arith) (omega arith) in
      elim (Bool-cases (ltb x (length (swap_remove x p.expiry)))) [
        | inl long ↦
            rw long
              (ap (λ t. t + f (expiry_at p.expiry x)) (sifted-total _ x _ (ground arith)) ∙ left)
        | inr short ↦ rw short left
      ]
