-- ===== src/Discovery/Dedup/Inserting.antt =====
-- `HashDedup::insert` of src/discovery.rs: the source that is stored counts as known until the time of
-- its hash is over, which no later source extends.
use dht_crawler.Base.{
  ℕ, ◌+◌, ◌≤◌, ◌<◌, ◌≡◌, ◌≢◌, refl, sym, ap, subst, ◌∙◌, ◌⊎◌, inl, inr, true, false, leb, is_some,
  [], ◌∷◌, length, All, All-append, Option, none, some, arith, Bool-cases,
}
use mathlib.Core.Logic.{if_pos, if_neg}
use dht_crawler.Base.Assoc.{
  get, get-remove, get-remove_other, get-insert_self, get-insert_other, length-insert_new,
}
use dht_crawler.Net.{SocketAddr, addr_discrete}
use dht_crawler.Scheduler.{Hash, hash_discrete, HashSource}
use dht_crawler.Discovery.Dedup.{
  Sources, Expiry, HashDedup, duplicate, add_source, make_room, insert_found, insert, contains,
}
use dht_crawler.Discovery.Dedup.Adding.{
  covered_again, ends_at-other, add_source-covers, updated-Agree, or_else, ends_at-snoc,
  added-Agree,
}
use dht_crawler.Discovery.Dedup.Expiring.{
  ends_at, IsSources, Agree, Inv, popped-Agree, sources_of, end_of, contains-Answers,
}

-- A hash that leaves a full map: the first of the queue.
abbrev pub GivenUp : Hash → HashDedup → HashDedup → Type 0
GivenUp h dedup dedup' =
    (dedup.capacity ≤ length dedup.entries)
    × (sources_of h dedup' ≡ none)
    × (end_of h dedup' ≡ none)
    × ((at : ℕ) × (q : Expiry) × (dedup.expiry ≡ (at, h) ∷ q))

abbrev pub Kept : Hash → HashDedup → HashDedup → Type 0
Kept h dedup dedup' =
    (sources_of h dedup' ≡ sources_of h dedup) × (end_of h dedup' ≡ end_of h dedup)

record Room (now : ℕ) (dedup room : HashDedup) : Type 0 where
  agree : Agree room.entries room.expiry
  within : All (λ x. x.0 ≤ now + dedup.ttl) room.expiry
  less : length room.entries < dedup.capacity
  capacity : room.capacity ≡ dedup.capacity
  ttl : room.ttl ≡ dedup.ttl
  others : (h : Hash) → Kept h dedup room ⊎ GivenUp h dedup room

make_room-Room :
    (now : ℕ) (dedup : HashDedup) (q : Expiry)
    → Inv now dedup
    → dedup.expiry ≡ q
    → Room now dedup (make_room dedup q)
unfolding make_room
make_room-Room now dedup [] v e = record {
  agree = v.agree;
  within = v.ends;
  less = omega (arith, v.positive, v.agree.sizes, ap length e);
  capacity = refl;
  ttl = refl;
  others = λ h. inl (refl, refl);
}
make_room-Room now dedup ((at, old) ∷ q) v e =
    elim (Bool-cases (leb dedup.capacity (length dedup.entries))) [
      | inr room ↦ rw room (record {
        agree = v.agree;
        within = v.ends;
        less = ground arith;
        capacity = refl;
        ttl = refl;
        others = λ h. inl (refl, refl);
      })
      | inl full ↦
          let whole = subst (Agree dedup.entries) e v.agree in
          let ends = subst (All (λ x. x.0 ≤ now + dedup.ttl)) e v.ends in
          let (v', shorter) = popped-Agree at old q dedup.entries whole in
          rw full (record {
            agree = v';
            within = ends.1;
            less = omega (arith, shorter, v.bounded);
            capacity = refl;
            ttl = refl;
            others = λ h. elim (hash_discrete old h) [
              | yes here ↦ inr (
                ground arith,
                rw (get-remove hash_discrete old h dedup.entries, if_pos _ here),
                subst (λ x. ends_at x q ≡ none) here whole.ordered.0,
                (at, q, e ∙ ap (λ x. (at, x) ∷ q) here),
              )
              | no apart ↦ inl (
                get-remove_other hash_discrete old h dedup.entries apart,
                (sym (ends_at-other old h at q apart) ∙ ap (ends_at h) (sym e)),
              )
            ];
          })
    ]

or_else-none : (e : Option ℕ) → or_else e none ≡ e
or_else-none none = refl
or_else-none (some t) = refl

first_source :
    (addr : SocketAddr) (source : HashSource)
    → IsSources ((addr, source) ∷ []) × (duplicate (some ((addr, source) ∷ [])) addr source ≡ true)
unfolding get
first_source addr source = (
  record { few = omega arith; uniq = (refl, tt) },
  rw (if_pos (addr_discrete addr addr) refl) (covered_again source),
)

unlisted_of :
    {A : Type 0} (ends : Option ℕ) (found : Option A)
    → is_some ends ≡ is_some found
    → found ≡ none
    → ends ≡ none
unlisted_of none found same h = refl
unlisted_of (some t) found same h = absurd (ground arith)

abbrev pub end_or : Option ℕ → ℕ → ℕ
end_or none t = t
end_or (some at) t = at

end_stays :
    {A : Type 0} (ends : Option ℕ) (found : Option A) (a : A) (t : ℕ)
    → is_some ends ≡ is_some found
    → found ≡ some a
    → ends ≡ some (end_or ends t)
end_stays none found a t same h = absurd (ground arith)
end_stays (some at) found a t same h = refl

pub record Inserts (hash : Hash) (addr : SocketAddr) (source : HashSource) (now : ℕ)
    (dedup dedup' : HashDedup) : Type 0 where
  pub inv : Inv now dedup'
  pub known : duplicate (sources_of hash dedup') addr source ≡ true
  pub end : end_of hash dedup' ≡ some (end_or (end_of hash dedup) (now + dedup.ttl))
  pub others :
      (h : Hash)
      → hash ≢ h
      → Kept h dedup dedup' ⊎ ((sources_of hash dedup ≡ none) × GivenUp h dedup dedup')

module _ (hash : Hash) (addr : SocketAddr) (source : HashSource) (now : ℕ) (dedup : HashDedup)
    (v : Inv now dedup) where
  insert_found-Inserts :
      (found : Option Sources)
      → sources_of hash dedup ≡ found
      → Inserts hash addr source now dedup (insert_found found hash addr source now dedup)
  unfolding insert_found
  insert_found-Inserts (some ss) at =
      let (ok, known) = add_source-covers addr source ss (v.agree.sources hash ss at) in
      let ss' = add_source (get addr_discrete addr ss) addr source ss in
      let (agree, size) = updated-Agree hash ss ss' dedup.entries dedup.expiry v.agree at ok in
      record {
        inv = record {
          agree = agree;
          ends = v.ends;
          bounded = omega (arith, size, v.bounded);
          positive = v.positive;
        };
        known = rw (get-insert_self hash_discrete hash hash ss' dedup.entries refl) known;
        end =
            end_stays (end_of hash dedup) (sources_of hash dedup) ss (now + dedup.ttl)
              (v.agree.listed hash) at;
        others =
            λ h apart. inl (get-insert_other hash_discrete hash h ss' dedup.entries apart, refl);
      }
  insert_found-Inserts none new =
      let room = make_room-Room now dedup dedup.expiry v refl in
      let made = make_room dedup dedup.expiry in
      let gone : sources_of hash made ≡ none = elim (room.others hash) [
        | inl kept ↦ kept.0 ∙ new
        | inr given_up ↦ given_up.1
      ] in
      let unlisted = unlisted_of (end_of hash made) _ (room.agree.listed hash) gone in
      let before = unlisted_of (end_of hash dedup) _ (v.agree.listed hash) new in
      let first : Sources = (addr, source) ∷ [] in
      let last = now + dedup.ttl in
      record {
        inv = record {
          agree =
              added-Agree hash first last made.entries made.expiry room.agree gone unlisted
                room.within (first_source addr source).0;
          ends = rw room.ttl (All-append _ _ _ room.within (omega arith, tt));
          bounded = rw room.capacity (
              omega
                (arith, room.less, length-insert_new hash_discrete hash first made.entries gone));
          positive = rw room.capacity v.positive;
        };
        known =
            rw (get-insert_self hash_discrete hash hash first made.entries refl)
              (first_source addr source).1;
        end =
            rw
              (
                ends_at-snoc hash hash last made.expiry,
                unlisted,
                before,
                if_pos (hash_discrete hash hash) refl,
              )
              refl;
        others = λ h apart.
            let sources = get-insert_other hash_discrete hash h first made.entries apart in
            let end =
              ends_at-snoc h hash last made.expiry
              ∙ ap (or_else (end_of h made)) (if_neg (hash_discrete hash h) apart _ _)
              ∙ or_else-none (end_of h made) in
            elim (room.others h) [
              | inl kept ↦ inl (sources ∙ kept.0, end ∙ kept.1)
              | inr given_up ↦
                  inr (new, (given_up.0, sources ∙ given_up.1, end ∙ given_up.2, given_up.3))
            ];
      }

  -- After `insert`, at a time that is not before the last operation, the source counts as known. The time
  -- of a hash that was there stays, and a new hash has its time to live. Another hash keeps its
  -- sources and its time, but for the oldest where a new hash comes to a full map. The capacity,
  -- the bound of four sources and the invariant hold.
  pub insert-Inserts : Inserts hash addr source now dedup (insert hash addr source now dedup)
  unfolding insert
  insert-Inserts = insert_found-Inserts (sources_of hash dedup) refl

-- What was inserted is told of as known at every later time before the end of its hash.
pub contains-insert :
    (hash : Hash) (addr : SocketAddr) (source : HashSource) (now later : ℕ) (dedup : HashDedup)
    → Inv now dedup
    → now ≤ later
    → later < end_or (end_of hash dedup) (now + dedup.ttl)
    → (contains hash addr source later (insert hash addr source now dedup)).1 ≡ true
contains-insert hash addr source now later dedup v after before =
    let inserted = insert-Inserts hash addr source now dedup v in
    let dedup' = insert hash addr source now dedup in
    let (answer, _, _) = contains-Answers now later dedup' inserted.inv after hash addr source in
    let lives : leb (end_or (end_of hash dedup) (now + dedup.ttl)) later ≡ false = ground arith in
    answer ∙ rw (inserted.end, lives) inserted.known
