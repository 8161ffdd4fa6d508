-- ===== src/NodePool/Recent/Recording.antt =====
-- `record` of `RecentProbes` in src/node_pool.rs, for a new address and for a known one.
use dht_crawler.Base.{
  ℕ, suc, ◌≤◌, ◌≡◌, refl, ap, sym, ◌∙◌, [], ◌∷◌, ◌++◌, length, length-append, none, some, arith,
  ite,
}
use dht_crawler.Base.Assoc.{
  get, insert, get-insert, Uniq-insert, length-insert_new, length-insert_old,
}
use dht_crawler.Base.Places.{get_elem?-out, get_elem?-push}
use dht_crawler.Net.{SocketAddr, addr_discrete}
use dht_crawler.NodePool.Recent.{RecentProbe, RecentProbes, record_new}
use dht_crawler.NodePool.Recent.Linked.{push-Linked, refresh-Linked}
use dht_crawler.NodePool.Recent.Steps.{Agree, deadline_of, entry_of, place_of}
use dht_crawler.NodePool.Recent.Sift.{sift_up-Moves}

-- The state after an address is given a deadline.
pub record Records (addr : SocketAddr) (t : ℕ) (p q : RecentProbes) : Type 0 where
  pub agree : Agree q
  pub deadlines :
      (a : SocketAddr) → deadline_of a q ≡ ite (addr_discrete addr a) (some t) (deadline_of a p)
  pub cap : q.capacity ≡ p.capacity

module _ (addr : SocketAddr) (t : ℕ) (p : RecentProbes) (agree : Agree p) where
  abbrev n : ℕ
  n = length p.expiry

  abbrev probe : RecentProbe
  probe = record { expires_at = t; heap_index = n }

  pushed : RecentProbes
  pushed = record p {
    entries = insert addr_discrete addr probe p.entries;
    expiry = p.expiry ++ ((t, addr) ∷ []);
  }

  pushed_size : length pushed.expiry ≡ suc n
  unfolding pushed
  pushed_size = length-append p.expiry ((t, addr) ∷ []) ∙ omega arith

  module _ (absent : get addr_discrete addr p.entries ≡ none) where
    pushed-Agree : Agree pushed
    unfolding pushed
    pushed-Agree = record {
      linked =
          push-Linked (place_of p) _ (entry_of p) _ n t addr agree.linked
            (get_elem?-out p.expiry n (omega arith)) absent
            (λ i. get_elem?-push p.expiry i (t, addr))
            (λ a. get-insert addr_discrete addr a probe p.entries);
      uniq = Uniq-insert addr_discrete addr probe p.entries agree.uniq;
      sizes =
          length-insert_new addr_discrete addr probe p.entries absent
          ∙ ap suc agree.sizes
          ∙ sym pushed_size;
    }

    pushed_deadline :
        (a : SocketAddr)
        → deadline_of a pushed ≡ ite (addr_discrete addr a) (some t) (deadline_of a p)
    unfolding pushed
    pushed_deadline a = ground (arith, get-insert addr_discrete addr a probe p.entries)

    pub record_new-Records :
        Records addr t p (record_new addr t p)
        × (length (record_new addr t p).entries ≡ suc (length p.entries))
    unfolding record_new pushed
    record_new-Records =
        let moves = sift_up-Moves (suc n) n pushed pushed-Agree (omega (arith, pushed_size)) in
        (
          record {
            agree = moves.agree;
            deadlines = λ a. moves.deadlines a ∙ pushed_deadline a;
            cap = moves.cap;
          },
          moves.agree.sizes ∙ moves.size ∙ pushed_size ∙ ap suc (sym agree.sizes),
        )

  module _ (d i : ℕ)
      (old : get addr_discrete addr p.entries ≡ some (record { expires_at = d; heap_index = i }))
      (later : d ≤ t) where
    unfoldable pub refreshed : RecentProbes
    refreshed = record p {
      entries = insert addr_discrete addr (record { expires_at = t; heap_index = i }) p.entries;
    }

    pub refreshed-Records :
        Records addr t p refreshed × (length refreshed.entries ≡ length p.entries)
    unfolding refreshed
    refreshed-Records =
        let size =
          length-insert_old addr_discrete addr (record { expires_at = t; heap_index = i }) _
            p.entries agree.uniq old in
        (
          record {
            agree = record {
              linked =
                  refresh-Linked (place_of p) (entry_of p) _ i d t addr agree.linked old later (λ a.
                    get-insert addr_discrete addr a (record { expires_at = t; heap_index = i })
                      p.entries);
              uniq =
                  Uniq-insert addr_discrete addr (record { expires_at = t; heap_index = i })
                    p.entries agree.uniq;
              sizes = size ∙ agree.sizes;
            };
            deadlines = λ a. ground (
              arith,
              get-insert addr_discrete addr a (record { expires_at = t; heap_index = i }) p.entries,
            );
            cap = refl;
          },
          size,
        )
