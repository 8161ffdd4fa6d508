-- ===== src/NodePool/Recent/Steps.antt =====
-- `RecentProbes` of src/node_pool.rs: what each primitive step does to the map and to the heap.
use dht_crawler.Base.{
  ℕ, ◌≤◌, ◌<◌, ◌≡◌, ◌≢◌, refl, ap, sym, ◌∙◌, subst, List, length, length-set, get_elem?, set,
  Option, none, some, arith, ite,
}
use mathlib.Core.Logic.{if_pos, if_neg}
use dht_crawler.Base.{ℕ_discrete}
use dht_crawler.Base.Assoc.{get, insert, get-insert, Uniq, Uniq-insert, length-insert_old}
use dht_crawler.Base.Places.{get_elem?-get_or, get_or-of_get_elem?, get_elem?-set}
use dht_crawler.Net.{v4, SocketAddr, addr_discrete}
use dht_crawler.NodePool.Recent.{
  RecentProbe, RecentProbes, expiry_at, with_index, set_index, swap_expiry, swap,
}
use dht_crawler.NodePool.Recent.Linked.{Linked, Places, Entries, places-Linked}

abbrev pub entry_of : RecentProbes → Entries
entry_of p = λ a. get addr_discrete a p.entries

abbrev pub place_of : RecentProbes → Places
place_of p = get_elem? p.expiry

-- The map and the heap agree, and are of one size.
pub record Agree (p : RecentProbes) : Type 0 where
  pub linked : Linked (place_of p) (entry_of p)
  pub uniq : Uniq addr_discrete p.entries
  pub sizes : length p.entries ≡ length p.expiry

-- The deadline that the map holds for an address.
abbrev pub deadline : Option RecentProbe → Option ℕ
deadline none = none
deadline (some probe) = some probe.expires_at

abbrev pub deadline_of : SocketAddr → RecentProbes → Option ℕ
deadline_of a p = deadline (get addr_discrete a p.entries)

-- A step that only moves elements within the heap.
pub record Moves (p q : RecentProbes) : Type 0 where
  pub agree : Agree q
  pub deadlines : (a : SocketAddr) → deadline_of a q ≡ deadline_of a p
  pub size : length q.expiry ≡ length p.expiry
  pub cap : q.capacity ≡ p.capacity

pub Moves-refl : {p : RecentProbes} → Agree p → Moves p p
Moves-refl h = record { agree = h; deadlines = λ a. refl; size = refl; cap = refl }

pub Moves-trans : {p q r : RecentProbes} → Moves p q → Moves q r → Moves p r
Moves-trans f g = record {
  agree = g.agree;
  deadlines = λ a. g.deadlines a ∙ f.deadlines a;
  size = g.size ∙ f.size;
  cap = g.cap ∙ f.cap;
}

abbrev pub no_element : ℕ × SocketAddr
no_element = (0, record { ip = v4 0 0 0 0; port = 0 })

-- What stands at a place within the heap, and its entry.
pub element :
    (p : RecentProbes) (i : ℕ)
    → i < length p.expiry
    → get_elem? p.expiry i ≡ some ((expiry_at p.expiry i).0, (expiry_at p.expiry i).1)
element p i h = get_elem?-get_or p.expiry i _ h

pub set_index-some :
    (i : ℕ) (a : SocketAddr) (m : List (SocketAddr × RecentProbe)) (probe : RecentProbe)
    → get addr_discrete a m ≡ some probe
    → set_index i a m ≡ insert addr_discrete a (record probe { heap_index = i }) m
unfolding set_index with_index
set_index-some i a m probe h = rw (h, with_index)

-- The heap after a swap.
swap_places :
    (l r : ℕ) (xs : List (ℕ × SocketAddr)) (i : ℕ)
    → l < length xs
    → r < length xs
    → get_elem? (swap_expiry l r xs) i
      ≡ ite
          (ℕ_discrete i r)
          (some (expiry_at xs l))
          (ite (ℕ_discrete i l) (some (expiry_at xs r)) (get_elem? xs i))
unfolding swap_expiry
swap_places l r xs i hl hr = rw (
  get_elem?-set (set xs l (expiry_at xs r)) r i (expiry_at xs l)
      (rw (length-set xs l (expiry_at xs r)) hr),
  get_elem?-set xs l i (expiry_at xs r) hl,
)

module _ (p : RecentProbes) (l r : ℕ) (agree : Agree p) (apart : l ≢ r) (hl : l < length p.expiry)
    (hr : r < length p.expiry) where
  abbrev el : ℕ × SocketAddr
  el = expiry_at p.expiry l

  abbrev er : ℕ × SocketAddr
  er = expiry_at p.expiry r

  entry_l :
      (d : ℕ) × (entry_of p el.1 ≡ some (record { expires_at = d; heap_index = l })) × (el.0 ≤ d)
  entry_l = agree.linked.has_entry l el.0 el.1 (element p l hl)

  entry_r :
      (d : ℕ) × (entry_of p er.1 ≡ some (record { expires_at = d; heap_index = r })) × (er.0 ≤ d)
  entry_r = agree.linked.has_entry r er.0 er.1 (element p r hr)

  addresses_differ : el.1 ≢ er.1
  addresses_differ h = let (d, e, _) = entry_l in let (d', e', _) = entry_r in ground arith

  swapped_l : expiry_at (swap_expiry l r p.expiry) l ≡ er
  swapped_l =
      get_or-of_get_elem? (swap_expiry l r p.expiry) l no_element
        (rw (swap_places l r p.expiry l hl hr, if_neg _ apart, if_pos _ refl))

  swapped_r : expiry_at (swap_expiry l r p.expiry) r ≡ el
  swapped_r =
      get_or-of_get_elem? (swap_expiry l r p.expiry) r no_element
        (rw (swap_places l r p.expiry r hl hr, if_pos _ refl))

  abbrev moved_l : RecentProbe
  moved_l = record { expires_at = entry_l.0; heap_index = r }

  abbrev moved_r : RecentProbe
  moved_r = record { expires_at = entry_r.0; heap_index = l }

  pub first_insert : List (SocketAddr × RecentProbe)
  first_insert =
      insert addr_discrete er.1 (record { expires_at = entry_r.0; heap_index = l }) p.entries

  pub second_insert : List (SocketAddr × RecentProbe)
  unfolding first_insert
  second_insert =
      insert addr_discrete el.1 (record { expires_at = entry_l.0; heap_index = r }) first_insert

  first_get :
      (a : SocketAddr)
      → get addr_discrete a first_insert
        ≡ ite
            (addr_discrete er.1 a)
            (some (record { expires_at = entry_r.0; heap_index = l }))
            (entry_of p a)
  unfolding first_insert
  first_get a = get-insert addr_discrete er.1 a _ p.entries

  second_get :
      (a : SocketAddr)
      → get addr_discrete a second_insert
        ≡ ite (addr_discrete el.1 a) (some (record { expires_at = entry_l.0; heap_index = r })) (
            ite
              (addr_discrete er.1 a)
              (some (record { expires_at = entry_r.0; heap_index = l }))
              (entry_of p a))
  unfolding second_insert
  second_get a = rw (get-insert addr_discrete el.1 a, first_get a)

  first_of_l :
      get addr_discrete el.1 first_insert ≡ some (record { expires_at = entry_l.0; heap_index = l })
  first_of_l = rw (first_get el.1, if_neg _ (λ h. addresses_differ (sym h))) entry_l.1

  swap-entries :
      swap l r p ≡ record p { entries = second_insert; expiry = swap_expiry l r p.expiry }
  unfolding swap set_index first_insert second_insert
  swap-entries =
      rw (swapped_l, swapped_r, set_index-some l er.1 p.entries _ entry_r.1)
        (ap (λ es. record p { entries = es; expiry = swap_expiry l r p.expiry })
          (set_index-some r el.1 first_insert _ first_of_l))

  swap_deadline : (a : SocketAddr) → deadline (get addr_discrete a second_insert) ≡ deadline_of a p
  swap_deadline a = ground (arith, second_get a, entry_l.1, entry_r.1)

  swap_size : length second_insert ≡ length p.entries
  unfolding first_insert second_insert
  swap_size =
      length-insert_old addr_discrete el.1 moved_l
        (record { expires_at = entry_l.0; heap_index = l }) first_insert
        (Uniq-insert addr_discrete er.1 moved_r p.entries agree.uniq) first_of_l
      ∙ length-insert_old addr_discrete er.1 moved_r
          (record { expires_at = entry_r.0; heap_index = r }) p.entries agree.uniq entry_r.1

  swap_expiry_size : length (swap_expiry l r p.expiry) ≡ length p.expiry
  unfolding swap_expiry
  swap_expiry_size = length-set (set p.expiry l er) r el ∙ length-set p.expiry l er

  swap-Uniq : Uniq addr_discrete second_insert
  unfolding second_insert first_insert
  swap-Uniq =
      Uniq-insert addr_discrete el.1 moved_l first_insert
        (Uniq-insert addr_discrete er.1 moved_r p.entries agree.uniq)

  swap-Linked :
      Linked (get_elem? (swap_expiry l r p.expiry)) (λ a. get addr_discrete a second_insert)
  swap-Linked =
      places-Linked (place_of p) _ (entry_of p) _ l r el.0 er.0 entry_l.0 entry_r.0 el.1 er.1
        agree.linked apart (element p l hl) (element p r hr) entry_l.1 entry_r.1
        (λ i. ground (arith, swap_places l r p.expiry i hl hr)) second_get

  -- A swap of two places keeps the map and the heap in agreement, and every deadline.
  pub swap-Moves : Moves p (swap l r p)
  swap-Moves = subst (Moves p) (sym swap-entries) (record {
    agree = record {
      linked = swap-Linked;
      uniq = swap-Uniq;
      sizes = swap_size ∙ agree.sizes ∙ sym swap_expiry_size;
    };
    deadlines = swap_deadline;
    size = swap_expiry_size;
    cap = refl;
  })
