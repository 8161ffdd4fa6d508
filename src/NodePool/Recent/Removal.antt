-- ===== src/NodePool/Recent/Removal.antt =====
-- `remove_at` of `RecentProbes` in src/node_pool.rs takes one address out of the map and of the
-- heap.
use dht_crawler.Base.{
  ℕ, suc, ◌-◌, ◌≤◌, ◌<◌, ◌≡◌, ◌≢◌, refl, ap, sym, ◌∙◌, subst, Bool, true, false, ltb, List, length,
  length-set, length-take, get_elem?, set, none, some, arith, ite, if◌then◌else◌,
}
use mathlib.Core.Logic.{if_pos, if_neg}
use dht_crawler.Base.{ℕ_discrete}
use dht_crawler.Base.Assoc.{
  get, insert, remove, get-insert, get-remove, Uniq, Uniq-insert, Uniq-remove, length-insert_old,
  length-remove,
}
use dht_crawler.Base.Places.{get_or-of_get_elem?, get_elem?-set, get_elem?-init}
use dht_crawler.Net.{SocketAddr, addr_discrete}
use dht_crawler.NodePool.Recent.{
  RecentProbe, RecentProbes, expiry_at, set_index, swap_remove, remove_at, sift_up, sift_down,
}
use dht_crawler.NodePool.Recent.Linked.{pop-Linked, move-Linked}
use dht_crawler.NodePool.Recent.Steps.{
  Agree, Moves, deadline_of, entry_of, place_of, element, no_element, set_index-some,
}
use dht_crawler.NodePool.Recent.Sift.{sift_up-Moves, sift_down-Moves}

-- The state after an address is taken out.
pub record Removes (gone : SocketAddr) (p q : RecentProbes) : Type 0 where
  pub agree : Agree q
  pub deadlines :
      (a : SocketAddr) → deadline_of a q ≡ ite (addr_discrete gone a) none (deadline_of a p)
  pub size : suc (length q.expiry) ≡ length p.expiry
  pub cap : q.capacity ≡ p.capacity

Removes-Moves :
    {gone : SocketAddr} {p q r : RecentProbes} → Removes gone p q → Moves q r → Removes gone p r
Removes-Moves f g = record {
  agree = g.agree;
  deadlines = λ a. g.deadlines a ∙ f.deadlines a;
  size = ap suc g.size ∙ f.size;
  cap = g.cap ∙ f.cap;
}

module _ (p : RecentProbes) (x n : ℕ) (agree : Agree p) (size : length p.expiry ≡ suc n)
    (hx : x ≤ n) where
  abbrev ex : ℕ × SocketAddr
  ex = expiry_at p.expiry x

  abbrev em : ℕ × SocketAddr
  em = expiry_at p.expiry n

  abbrev rest : List (ℕ × SocketAddr)
  rest = swap_remove x p.expiry

  abbrev entries : List (SocketAddr × RecentProbe)
  entries = remove addr_discrete ex.1 p.entries

  entry_x :
      (d : ℕ) × (entry_of p ex.1 ≡ some (record { expires_at = d; heap_index = x })) × (ex.0 ≤ d)
  entry_x = agree.linked.has_entry x ex.0 ex.1 (element p x (omega arith))

  entry_m :
      (d : ℕ) × (entry_of p em.1 ≡ some (record { expires_at = d; heap_index = n })) × (em.0 ≤ d)
  entry_m = agree.linked.has_entry n em.0 em.1 (element p n (omega arith))

  last_index : length p.expiry - 1 ≡ n
  last_index = omega arith

  rest_places :
      (i : ℕ)
      → get_elem? rest i
        ≡ ite (ℕ_discrete i n) none (ite (ℕ_discrete i x) (some em) (get_elem? p.expiry i))
  unfolding swap_remove
  rest_places i = rw last_index (
      rw (
        get_elem?-init (set p.expiry x em) i n (length-set p.expiry x em ∙ size),
        get_elem?-set p.expiry x i em (omega arith),
      ))

  rest_size : length rest ≡ n
  unfolding swap_remove
  rest_size =
      rw last_index (omega (arith, length-take n (set p.expiry x em), length-set p.expiry x em))

  entries_get :
      (a : SocketAddr)
      → get addr_discrete a entries ≡ ite (addr_discrete ex.1 a) none (entry_of p a)
  entries_get a = get-remove addr_discrete ex.1 a p.entries

  entries-Uniq : Uniq addr_discrete entries
  entries-Uniq = Uniq-remove addr_discrete ex.1 p.entries agree.uniq

  entries_size : length entries ≡ n
  entries_size =
      omega (arith, length-remove addr_discrete ex.1 p.entries agree.uniq entry_x.1, agree.sizes)

  -- The removed element is the last one.
  gap_Removes : x ≡ n → Removes ex.1 p (record p { entries = entries; expiry = rest })
  gap_Removes e = record {
    agree = record {
      linked =
          pop-Linked (place_of p) (get_elem? rest) (entry_of p) (λ a. get addr_discrete a entries) n
            em.0 em.1 agree.linked (element p n (omega arith)) (λ i. ground (arith, rest_places i))
            (λ a.
              entries_get a
              ∙ ap (λ j. ite (addr_discrete (expiry_at p.expiry j).1 a) none (entry_of p a)) e);
      uniq = entries-Uniq;
      sizes = entries_size ∙ sym rest_size;
    };
    deadlines = λ a. ground (arith, entries_get a);
    size = omega (arith, rest_size);
    cap = refl;
  }

  module _ (apart : x ≢ n) where
    addresses_differ : ex.1 ≢ em.1
    addresses_differ h = let (d, e, _) = entry_x in let (d', e', _) = entry_m in ground arith

    last_entry :
        get addr_discrete em.1 entries ≡ some (record { expires_at = entry_m.0; heap_index = n })
    last_entry = rw (entries_get em.1, if_neg _ addresses_differ) entry_m.1

    abbrev moved_m : RecentProbe
    moved_m = record { expires_at = entry_m.0; heap_index = x }

    moved_entries : List (SocketAddr × RecentProbe)
    moved_entries = insert addr_discrete em.1 moved_m entries

    moved_get :
        (a : SocketAddr)
        → get addr_discrete a moved_entries
          ≡ ite
              (addr_discrete em.1 a)
              (some moved_m)
              (ite (addr_discrete ex.1 a) none (entry_of p a))
    unfolding moved_entries
    moved_get a = rw (get-insert addr_discrete em.1 a, entries_get a)

    rest_at : expiry_at rest x ≡ em
    rest_at =
        get_or-of_get_elem? rest x no_element (rw (rest_places x, if_neg _ apart, if_pos _ refl))

    moved-set_index : set_index x (expiry_at rest x).1 entries ≡ moved_entries
    unfolding moved_entries
    moved-set_index = rw rest_at (set_index-some x em.1 entries _ last_entry)

    moved_Removes : Removes ex.1 p (record p { entries = moved_entries; expiry = rest })
    moved_Removes = record {
      agree = record {
        linked =
            move-Linked (place_of p) (get_elem? rest) (entry_of p)
              (λ a. get addr_discrete a moved_entries) x n ex.0 em.0 entry_m.0 ex.1 em.1
              agree.linked apart (element p x (omega arith)) (element p n (omega arith)) entry_m.1
              rest_places moved_get;
        uniq = unfold moved_entries in Uniq-insert addr_discrete em.1 moved_m entries entries-Uniq;
        sizes =
            unfold moved_entries in
            length-insert_old addr_discrete em.1 moved_m
              (record { expires_at = entry_m.0; heap_index = n }) entries entries-Uniq last_entry
            ∙ entries_size
            ∙ sym rest_size;
      };
      deadlines = λ a. ground (arith, moved_get a, entry_m.1, addresses_differ);
      size = omega (arith, rest_size);
      cap = refl;
    }

sifted-Removes :
    (up : Bool) (x : ℕ) {gone : SocketAddr} {p : RecentProbes} (q : RecentProbes)
    → Removes gone p q
    → x < length q.expiry
    → Removes gone p (if up then sift_up (length q.expiry) x q else sift_down (length q.expiry) x q)
sifted-Removes true x q f h = Removes-Moves f (sift_up-Moves (length q.expiry) x q f.agree h)
sifted-Removes false x q f h = Removes-Moves f (sift_down-Moves (length q.expiry) x q f.agree)

-- `remove_at` takes out the element at a place within the heap, and its address from the map; the
-- map and the heap go on to agree.
pub remove_at-Removes :
    (p : RecentProbes) (x : ℕ)
    → Agree p
    → x < length p.expiry
    → Removes (expiry_at p.expiry x).1 p (remove_at x p)
unfolding remove_at
remove_at-Removes p x agree h =
    let n = length p.expiry - 1 in
    let size : length p.expiry ≡ suc n = omega arith in
    let hx : x ≤ n = omega arith in
    elim (ℕ_discrete x n) [
      | yes e ↦
          let short : ltb x (length (swap_remove x p.expiry)) ≡ false =
            ground (arith, rest_size p x n agree size hx) in
          simp short (gap_Removes p x n agree size hx e)
      | no apart ↦
          let long : ltb x (length (swap_remove x p.expiry)) ≡ true =
            ground (arith, rest_size p x n agree size hx) in
          simp long (
            sifted-Removes _ x _
              (subst
                (λ es.
                  Removes (expiry_at p.expiry x).1 p
                    (record p { entries = es; expiry = swap_remove x p.expiry }))
                (sym (moved-set_index p x n agree size hx apart))
                (moved_Removes p x n agree size hx apart))
              (omega (arith, rest_size p x n agree size hx)))
    ]
