-- ===== src/RoutingSnapshot/Visiting.antt =====
-- src/routing_snapshot.rs: `PrefixIndex::visit` appends the nodes of a trie in the order of their
-- distances, up to the limit.
use dht_crawler.Base.{
  ℕ, zero, suc, ◌+◌, ◌-◌, ◌*◌, ◌≤◌, ◌<◌, min, leb, List, ◌++◌, ◌≡◌, sym, ap, ◌∙◌, length, take,
  drop, arith, Bool-cases, inl, inr, append_assoc, append-nil, length-append,
}
use dht_crawler.RoutingSnapshot.{Nodes, PrefixIndex, visit, slice, bit_clear}
use dht_crawler.RoutingSnapshot.Slices.{take-append_parts, take-take}
use dht_crawler.RoutingSnapshot.Building.{Covers, at_leaf, at_split}
use dht_crawler.RoutingSnapshot.Walking.{walk}

module _ (target : List ℕ) where
  -- The parts are visited in turn, each up to what is left of the limit.
  taken :
      (limit : ℕ) (output xs ys : Nodes)
      → (output ++ take (limit - length output) xs)
          ++ take (limit - length (output ++ take (limit - length output) xs)) ys
        ≡ output ++ take (limit - length output) (xs ++ ys)
  taken limit output xs ys =
      let k = limit - length output in
      let left : limit - length (output ++ take k xs) ≡ k - length (take k xs) =
        omega (arith, length-append output (take k xs)) in
      rw left (
        append_assoc output (take k xs) (take (k - length (take k xs)) ys)
        ∙ ap (λ l. output ++ l) (take-append_parts k xs ys))

  full :
      (limit : ℕ) (output xs : Nodes)
      → limit ≤ length output
      → output ≡ output ++ take (limit - length output) xs
  full limit output xs h =
      let none_left : limit - length output ≡ 0 = omega (arith, h) in
      rw none_left (sym (append-nil output))

  leaf_taken :
      (start end limit : ℕ) (output nodes : Nodes)
      → length output < limit
      → slice start (min end (start + limit - length output)) nodes
        ≡ take (limit - length output) (slice start end nodes)
  leaf_taken start end limit output nodes h =
      let count : min end (start + limit - length output) - start
          ≡ min (limit - length output) (end - start) =
        omega (arith, h) in
      ap (λ n. take n (drop start nodes)) count
      ∙ sym (take-take (limit - length output) (end - start) (drop start nodes))

  pub visit-walk :
      (fuel position start end limit : ℕ) (index : PrefixIndex) (output : Nodes)
      (covers : Covers index.nodes index.branches position start end)
      → position < fuel
      → (visit fuel position target limit index output).0
        ≡ output ++ take (limit - length output) (walk target covers)
  unfolding visit walk
  visit-walk zero position start end limit index output covers enough = absurd (omega arith)
  visit-walk (suc fuel) position start end limit index output (at_leaf found h same) enough =
      elim (Bool-cases (leb limit (length output))) [
        | inl is_full ↦ rw is_full (full limit output _ (ground (arith, is_full)))
        | inr more ↦
            rw (more, found)
              (ap (λ l. output ++ l)
                (leaf_taken start end limit output index.nodes (ground (arith, more))))
      ]
  visit-walk (suc fuel) position start end limit index output
        (at_split middle byte place z o found l1 l2 hp d c1 c2) enough =
      let low = walk target c1 in
      let high = walk target c2 in
      let zeros_first = visit-walk fuel z start middle limit index output c1 (omega arith) in
      let ones_first = visit-walk fuel o middle end limit index output c2 (omega arith) in
      elim (Bool-cases (leb limit (length output))) [
        | inl is_full ↦ rw is_full (full limit output _ (ground (arith, is_full)))
        | inr more ↦ elim (Bool-cases (bit_clear (byte * 8 + place) target)) [
          | inl clear ↦
              rw (more, found, clear)
                (ap (λ out. (visit fuel o target limit index out).0) zeros_first
                  ∙ visit-walk fuel o middle end limit index
                      (output ++ take (limit - length output) low) c2 (omega arith)
                  ∙ taken limit output low high)
          | inr set ↦
              rw (more, found, set)
                (ap (λ out. (visit fuel z target limit index out).0) ones_first
                  ∙ visit-walk fuel z start middle limit index
                      (output ++ take (limit - length output) high) c1 (omega arith)
                  ∙ taken limit output high low)
        ]
      ]
