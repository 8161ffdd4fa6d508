-- ===== src/Scheduler/Queue/Indexes.antt =====
-- src/scheduler.rs: an index of the pending hashes by keys that their entries name, and what the
-- changes of the map of entries and of the index do to it.
use dht_crawler.Base.{◌≡◌, ◌≢◌, ap, sym, ◌∙◌, List, Option, none, some, arith}
use mathlib.Core.Logic.{if_pos, if_neg}
use mathlib.Core.Option.{some-injective}
use dht_crawler.Base.Assoc.{
  get, insert, remove, get-insert, get-remove, Uniq, Uniq-insert, Uniq-remove,
}
use dht_crawler.Scheduler.{Hash, Key, hash_discrete, key_discrete, QueuedHash}
use dht_crawler.Scheduler.Queue.{Index}

abbrev pub Entries : Type 0
Entries = List (Hash × QueuedHash)

abbrev pub entry_at : Hash → Entries → Option QueuedHash
entry_at h entries = get hash_discrete h entries

abbrev pub hash_at : Key → Index → Option Hash
hash_at k index = get key_discrete k index

-- An index holds exactly the keys that the entries name, each with the hash of its entry.
pub record IsIndex (key_of : QueuedHash → Option Key) (index : Index) (entries : Entries)
    : Type 0 where
  pub uniq : Uniq key_discrete index
  pub to_index :
      (h : Hash) (e : QueuedHash) (k : Key)
      → entry_at h entries ≡ some e
      → key_of e ≡ some k
      → hash_at k index ≡ some h
  pub to_entry :
      (k : Key) (h : Hash)
      → hash_at k index ≡ some h
      → (e : QueuedHash) × (entry_at h entries ≡ some e) × (key_of e ≡ some k)

module _ (key_of : QueuedHash → Option Key) (index : Index) (entries : Entries)
    (v : IsIndex key_of index entries) (h : Hash) (e : QueuedHash) where
  -- A new entry without a key.
  pub skip-IsIndex :
      entry_at h entries ≡ none
      → key_of e ≡ none
      → IsIndex key_of index (insert hash_discrete h e entries)
  skip-IsIndex absent no_key = record {
    uniq = v.uniq;
    to_index = λ h' e' k' at named.
        ground (arith, get-insert hash_discrete h h' e entries, v.to_index h' e' k');
    to_entry = λ k' h' at.
        let (e', at', named) = v.to_entry k' h' at in
        (e', ground (arith, get-insert hash_discrete h h' e entries), named);
  }

  -- A new entry with a new key.
  pub add-IsIndex :
      (k : Key)
      → entry_at h entries ≡ none
      → key_of e ≡ some k
      → hash_at k index ≡ none
      → IsIndex key_of (insert key_discrete k h index) (insert hash_discrete h e entries)
  add-IsIndex k absent named free = record {
    uniq = Uniq-insert key_discrete k h index v.uniq;
    to_index = λ h' e' k' at named'. ground (
      arith,
      get-insert hash_discrete h h' e entries,
      get-insert key_discrete k k' h index,
      v.to_index h' e' k',
    );
    to_entry = λ k' h' at. elim (key_discrete k k') [
      | yes same ↦
          let here : h ≡ h' = ground (arith, get-insert key_discrete k k' h index) in
          (e, rw (get-insert hash_discrete h h' e entries, if_pos _ here), named ∙ ap some same)
      | no other ↦
          let before : hash_at k' index ≡ some h' =
            ground (arith, get-insert key_discrete k k' h index) in
          let (e', at', named') = v.to_entry k' h' before in
          (e', ground (arith, get-insert hash_discrete h h' e entries), named')
    ];
  }

  -- An entry leaves, with its key.
  pub remove-IsIndex :
      (k : Key)
      → entry_at h entries ≡ some e
      → ((k' : Key) → key_of e ≡ some k' → k' ≡ k)
      → ((h' : Hash) → hash_at k index ≡ some h' → h' ≡ h)
      → IsIndex key_of (remove key_discrete k index) (remove hash_discrete h entries)
  remove-IsIndex k at own alone = record {
    uniq = Uniq-remove key_discrete k index v.uniq;
    to_index = λ h' e' k' at' named.
        let elsewhere : h ≢ h' = λ same. ground (arith, get-remove hash_discrete h h' entries) in
        let before : entry_at h' entries ≡ some e' =
          ground (arith, get-remove hash_discrete h h' entries) in
        let there = v.to_index h' e' k' before named in
        let apart : k ≢ k' = λ same. elsewhere (sym (alone h' (rw same there))) in
        rw (get-remove key_discrete k k' index, if_neg _ apart) (there);
    to_entry = λ k' h' at'.
        let apart : k ≢ k' = λ same. ground (arith, get-remove key_discrete k k' index) in
        let before : hash_at k' index ≡ some h' =
          ground (arith, get-remove key_discrete k k' index) in
        let (e', there, named) = v.to_entry k' h' before in
        let elsewhere : h ≢ h' = λ same.
          let old : e ≡ e' =
            some-injective e e' (sym at ∙ ap (λ x. entry_at x entries) same ∙ there) in
          apart (sym (own k' (ap key_of old ∙ named))) in
        (e', rw (get-remove hash_discrete h h' entries, if_neg _ elsewhere) (there), named);
  }

  -- An entry changes and keeps its key.
  pub keep-IsIndex :
      (e' : QueuedHash)
      → entry_at h entries ≡ some e
      → key_of e' ≡ key_of e
      → IsIndex key_of index (insert hash_discrete h e' entries)
  keep-IsIndex e' at same = record {
    uniq = v.uniq;
    to_index = λ h' x k' at' named. elim (hash_discrete h h') [
      | yes here ↦
          let new : e' ≡ x = ground (arith, get-insert hash_discrete h h' e' entries) in
          v.to_index h' e k' (ap (λ y. entry_at y entries) (sym here) ∙ at)
            (sym same ∙ ap key_of new ∙ named)
      | no apart ↦
          v.to_index h' x k' (ground (arith, get-insert hash_discrete h h' e' entries)) named
    ];
    to_entry = λ k' h' at'.
        let (x, there, named) = v.to_entry k' h' at' in
        elim (hash_discrete h h') [
          | yes here ↦
              let old : e ≡ x =
                some-injective e x (sym at ∙ ap (λ y. entry_at y entries) here ∙ there) in
              (
                e',
                rw (get-insert hash_discrete h h' e' entries, if_pos _ here),
                same ∙ ap key_of old ∙ named,
              )
          | no apart ↦
              (x, rw (get-insert hash_discrete h h' e' entries, if_neg _ apart) (there), named)
        ];
  }

  -- An entry changes and loses its key.
  pub drop-IsIndex :
      (e' : QueuedHash) (k : Key)
      → entry_at h entries ≡ some e
      → key_of e ≡ some k
      → key_of e' ≡ none
      → IsIndex key_of (remove key_discrete k index) (insert hash_discrete h e' entries)
  drop-IsIndex e' k at named no_key = record {
    uniq = Uniq-remove key_discrete k index v.uniq;
    to_index = λ h' x k' at' named'.
        let apart_hash : h ≢ h' =
          λ here. ground (arith, get-insert hash_discrete h h' e' entries) in
        let before : entry_at h' entries ≡ some x =
          ground (arith, get-insert hash_discrete h h' e' entries) in
        let there = v.to_index h' x k' before named' in
        let apart : k ≢ k' = λ same. apart_hash (
          some-injective h h'
            (sym (v.to_index h e k at named) ∙ ap (λ y. hash_at y index) same ∙ there)) in
        rw (get-remove key_discrete k k' index, if_neg _ apart) (there);
    to_entry = λ k' h' at'.
        let apart : k ≢ k' = λ same. ground (arith, get-remove key_discrete k k' index) in
        let before : hash_at k' index ≡ some h' =
          ground (arith, get-remove key_discrete k k' index) in
        let (x, there, named') = v.to_entry k' h' before in
        let elsewhere : h ≢ h' = λ here.
          let old : e ≡ x =
            some-injective e x (sym at ∙ ap (λ y. entry_at y entries) here ∙ there) in
          apart (some-injective k k' (sym named ∙ ap key_of old ∙ named')) in
        (x, rw (get-insert hash_discrete h h' e' entries, if_neg _ elsewhere) (there), named');
  }

  -- An entry changes and gains a new key.
  pub gain-IsIndex :
      (e' : QueuedHash) (k : Key)
      → entry_at h entries ≡ some e
      → key_of e ≡ none
      → key_of e' ≡ some k
      → hash_at k index ≡ none
      → IsIndex key_of (insert key_discrete k h index) (insert hash_discrete h e' entries)
  gain-IsIndex e' k at no_key named free = record {
    uniq = Uniq-insert key_discrete k h index v.uniq;
    to_index = λ h' x k' at' named'. elim (hash_discrete h h') [
      | yes here ↦
          let new : e' ≡ x = ground (arith, get-insert hash_discrete h h' e' entries) in
          let same : k ≡ k' = some-injective k k' (sym named ∙ ap key_of new ∙ named') in
          rw (get-insert key_discrete k k' h index, if_pos _ same) (ap some here)
      | no apart ↦
          let there =
            v.to_index h' x k' (ground (arith, get-insert hash_discrete h h' e' entries)) named' in
          let other : k ≢ k' = λ same. ground (arith, there, free) in
          rw (get-insert key_discrete k k' h index, if_neg _ other) (there)
    ];
    to_entry = λ k' h' at'. elim (key_discrete k k') [
      | yes same ↦
          let here : h ≡ h' = ground (arith, get-insert key_discrete k k' h index) in
          (e', rw (get-insert hash_discrete h h' e' entries, if_pos _ here), named ∙ ap some same)
      | no other ↦
          let before : hash_at k' index ≡ some h' =
            ground (arith, get-insert key_discrete k k' h index) in
          let (x, there, named') = v.to_entry k' h' before in
          let elsewhere : h ≢ h' = λ here.
            let old : e ≡ x =
              some-injective e x (sym at ∙ ap (λ y. entry_at y entries) here ∙ there) in
            ground (arith, ap key_of old, no_key, named') in
          (x, rw (get-insert hash_discrete h h' e' entries, if_neg _ elsewhere) (there), named')
    ];
  }
