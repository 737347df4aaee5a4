-- ===== src/Redis/Lists/Pop.antt =====
-- `lpop` and `rpop` on a list in the database.
use raft_bitcask.Prelude.{
  ℕ, ◌+◌, ◌*◌, ◌≡◌, ◌==◌, false, refl, ap, ◌∙◌, some, none, List, [], ◌∷◌, ◌++◌, length,
  length-append, arith,
}
use raft_bitcask.Common.{Bytes, IsU64, throw, key_not_found}
use raft_bitcask.Db.Represents.{KeyMap}
use raft_bitcask.Db.Represents.Operations.{set_key}
use raft_bitcask.Redis.DataType
use raft_bitcask.Redis.Metadata.{RedisMetadata}
use raft_bitcask.Redis.Keys.{list_internal_key, length-list_internal_key}
use raft_bitcask.Redis.Store.{Store, IsMap, record_room}
use raft_bitcask.Redis.Service.{Service, add_64, pred_64, pred_32, db_get, db_remove, find_metadata}
use raft_bitcask.Redis.Service.Runs.{Yields, Yields-bind, At, At-le, db_get-some, db_remove-At}
use raft_bitcask.Redis.Service.Find.{find_metadata-missing}
use raft_bitcask.Redis.Lists.{take_out, lpop, rpop}
use raft_bitcask.Redis.Lists.Slots.{Elements, Elements-outside, Elements-init}
use raft_bitcask.Redis.Lists.Represents.{Describes, Deque, IsListKey, shrink-Deque}
use raft_bitcask.Redis.Lists.Find.{find_metadata-Finds}

-- Log bytes that are enough for taking an element away.
abbrev pub pop_room : Bytes → ℕ
pop_room key = 83 + 2 * length key

module _ {store : Store} (laws : IsMap store) (now : ℕ → ℕ) (key : Bytes)
    (legal : IsListKey laws now key) where
  -- The element at an index is returned and goes, where the metadata describes the list without it.
  take_out-Deque :
      (s : Service store) (m : KeyMap) (n t index : ℕ) (element : Bytes) (md : RedisMetadata)
      (xs : List Bytes) (k : ℕ)
      → At laws now m (pop_room key + n) t s
      → m (list_internal_key key md.version index) ≡ some element
      → Describes key (set_key m (list_internal_key key md.version index) none) md xs k
      → Yields (take_out store now key index md s) element (λ s'. Deque laws now key s' xs n k)
  unfolding take_out db_get
  take_out-Deque s m n t index element md xs k here stored d =
      let slot = list_internal_key key md.version index in
      let size = length-list_internal_key key md.version index in
      let (got, same) =
        db_get-some laws now s m (pop_room key + n) t slot element here (omega (arith, size))
          stored in
      let (gone, after) =
        db_remove-At laws now s m (52 + length key + n) t slot
          (At-le laws now s m (pop_room key + n) t (record_room slot [] + (52 + length key + n))
            here (omega (arith, size)))
          (omega (arith, size), omega (arith, size, legal.1), omega arith) in
      let s' = (db_remove store now slot s).1 in
      let (done, q) =
        shrink-Deque laws now key legal s' (set_key m slot none) n t md xs k d after in
      rw (got, gone, done) (refl, q)

  module _ (clock : (t : ℕ) → IsU64 (now t)) (s : Service store) (element : Bytes) (xs : List Bytes)
      (n k : ℕ) where
    -- `lpop` returns the first element of a list that the key holds, and the key then holds the rest, an
    -- empty one by being missing. This needs a clock of 64 bits and room in the log for the two records.
    pub lpop-Deque :
        Deque laws now key s (element ∷ xs) (pop_room key + n) (k + 1)
        → Yields (lpop store now key s) element (λ s'. Deque laws now key s' xs n k)
    unfolding lpop
    lpop-Deque q =
        let found =
          find_metadata-Finds laws now key clock legal s (element ∷ xs) (pop_room key + n) (k + 1)
            q in
        let md = found.md in
        let d = found.found (omega arith) in
        let (stored, rest) = d.elements in
        let nonempty : (md.size == 0) ≡ false = ground (arith, d.size) in
        let next : add_64 md.head 1 ≡ md.head + 1 = omega (arith, d.tail, d.right) in
        let fewer : pred_32 md.size ≡ length xs = omega (arith, d.size, d.count) in
        let md' = record md { head = add_64 md.head 1; size = pred_32 md.size } in
        let slot = list_internal_key key md.version md.head in
        let kept : Elements key md.version (set_key found.map slot none) (add_64 md.head 1) xs =
          rw next (
            Elements-outside key md.version found.map (md.head + 1) xs md.head none
              (omega (arith, d.tail, d.right)) (omega (arith, d.tail, d.right))
              (λ i low high same. omega (arith, low, same)) rest) in
        let d' : Describes key (set_key found.map slot none) md' xs k = record {
          type = d.type;
          unlimited = d.unlimited;
          version = d.version;
          size = fewer;
          tail = omega (arith, d.tail, next);
          left = omega (arith, d.left, next);
          right = omega (arith, d.right);
          count = omega (arith, d.count);
          elements = kept;
        } in
        Yields-bind (find_metadata store now key DataType.list) _ s md element
          (At laws now found.map (pop_room key + n) found.readings)
          (λ s'. Deque laws now key s' xs n k) found.run
          (λ s' here.
            simp nonempty (
              take_out-Deque s' found.map n found.readings md.head element md' xs k here stored d'))

    -- `rpop` returns the last element in the same way.
    pub rpop-Deque :
        Deque laws now key s (xs ++ element ∷ []) (pop_room key + n) (k + 1)
        → Yields (rpop store now key s) element (λ s'. Deque laws now key s' xs n k)
    unfolding rpop
    rpop-Deque q =
        let whole = xs ++ element ∷ [] in
        let longer = length-append xs (element ∷ []) in
        let found =
          find_metadata-Finds laws now key clock legal s whole (pop_room key + n) (k + 1) q in
        let md = found.md in
        let d = found.found (omega (arith, longer)) in
        let (front, last) = Elements-init key md.version found.map md.head xs element d.elements in
        let nonempty : (md.size == 0) ≡ false = ground (arith, d.size, longer) in
        let back : pred_64 md.tail ≡ md.head + length xs = omega (arith, d.tail, d.right, longer) in
        let fewer : pred_32 md.size ≡ length xs = omega (arith, d.size, d.count, longer) in
        let md' = record md { tail = pred_64 md.tail; size = pred_32 md.size } in
        let slot = list_internal_key key md.version (pred_64 md.tail) in
        let stored : found.map slot ≡ some element =
          ap (λ i. found.map (list_internal_key key md.version i)) back ∙ last in
        let d' : Describes key (set_key found.map slot none) md' xs k = record {
          type = d.type;
          unlimited = d.unlimited;
          version = d.version;
          size = fewer;
          tail = back;
          left = omega (arith, d.left);
          right = omega (arith, d.right, d.tail, back, longer);
          count = omega (arith, d.count, longer);
          elements =
              Elements-outside key md.version found.map md.head xs (pred_64 md.tail) none
                (omega arith) (omega (arith, d.tail, d.right, longer))
                (λ i low high same. omega (arith, back)) front;
        } in
        Yields-bind (find_metadata store now key DataType.list) _ s md element
          (At laws now found.map (pop_room key + n) found.readings)
          (λ s'. Deque laws now key s' xs n k) found.run
          (λ s' here. simp nonempty (
            take_out-Deque s' found.map n found.readings (pred_64 md.tail) element md' xs k here
              stored d'))

  -- `lpop` and `rpop` of a list without elements throw that the key is not found, and it stays so.
  pub pop_empty :
      (s : Service store) (n k : ℕ)
      → Deque laws now key s [] n k
      → (lpop store now key s
          ≡ (throw key_not_found, (find_metadata store now key DataType.list s).1))
        × (rpop store now key s
            ≡ (throw key_not_found, (find_metadata store now key DataType.list s).1))
        × Deque laws now key (find_metadata store now key DataType.list s).1 [] n k
  unfolding lpop rpop
  pop_empty s n k q =
      let (run, here) =
        find_metadata-missing laws now s q.map n q.readings key DataType.list q.at legal.0
          q.list.0 in
      rw run
        (refl, refl, record { map = q.map; readings = q.readings + 1; at = here; list = q.list })
