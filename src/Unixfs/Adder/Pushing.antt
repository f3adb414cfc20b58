-- ===== src/Unixfs/Adder/Pushing.antt =====
-- What `push` does to a file adder: the bytes so far are those of its links, then the buffered ones.
use mathlib.Core.List.{append_assoc, append-nil}
use rust_ipfs.Base.{
  ℕ, ◌+◌, ◌-◌, ◌≤◌, ◌<◌, true, false, ◌≡◌, refl, sym, ap, subst, ◌∙◌, inl, inr, none, some, List,
  [], ◌∷◌, ◌++◌, arith, if◌then◌else◌, length, length-append, length-take, is_empty, ltb, leb,
  nat_eq, list_eq, Bool-cases, take,
}
use Prim.Native.Nat.{min}
use rust_ipfs.Base.Outcome.{returned}
use rust_ipfs.Unixfs.Nodes.{Bytes, FlatUnixFs, wrap64}
use rust_ipfs.Unixfs.Collector.{Link, unixfs_file}
use rust_ipfs.Unixfs.Collector.Content.{read_flat, after, IsWritten}
use rust_ipfs.Unixfs.Collector.Rooted.{IsFit}
use rust_ipfs.Unixfs.Adder.{
  size, accept, FileAdder, flush_buffered_leaf, flush_buffered_links, flush_chunk, push,
}
use rust_ipfs.Unixfs.Adder.Growing.{IsGrowing}
use rust_ipfs.Unixfs.Adder.Leaves.{grow_lem}

-- The message of a leaf.
abbrev pub leaf_of : Bytes → FlatUnixFs
leaf_of input = record {
  links = [];
  unixfs = unixfs_file (if is_empty input then none else some input) (wrap64 (length input)) [];
}

module _ {Cid : Type 0} (to_bytes : Cid → Bytes) (render_and_hash : FlatUnixFs → Cid × Bytes)
    (reads : Bytes → Bytes)
    (reads_block : (f : FlatUnixFs)
      → reads (to_bytes (render_and_hash f).0) ≡ read_flat reads f) where
  abbrev IsGrowingHere : ℕ → List Bytes → Bytes → List (Link Cid) → Type 0
  IsGrowingHere = IsGrowing to_bytes render_and_hash reads reads_block

  -- After these bytes, and blocks with these hashes, the last one first.
  pub record IsAdding (max : ℕ) (e : List Bytes) (bytes : Bytes) (f : FileAdder Cid) : Type 0 where
    pub linked : Bytes
    pub chunked : f.chunker ≡ size max
    pub branches : 2 ≤ f.collector.branching_factor
    pub growing : IsGrowingHere f.collector.branching_factor e linked f.unflushed_links
    pub all_bytes : linked ++ f.block_buffer ≡ bytes
    pub room : length f.block_buffer < max

  abbrev pub leaf_link : Bytes → Link Cid
  leaf_link input = record {
    depth = 0;
    target = (render_and_hash (leaf_of input)).0;
    total_size = wrap64 (length (render_and_hash (leaf_of input)).1);
    file_size = wrap64 (length input);
  }

  pub reads-leaf_of : (input : Bytes) → reads (to_bytes (render_and_hash (leaf_of input)).0) ≡ input
  reads-leaf_of [] = reads_block (leaf_of [])
  reads-leaf_of (b ∷ input) = reads_block (leaf_of (b ∷ input))

  pub leaf_link-IsFit :
      (e : List Bytes) (input : Bytes)
      → IsFit to_bytes render_and_hash reads reads_block
          (to_bytes (leaf_link input).target ∷ e)
          (leaf_link input ∷ [])
  leaf_link-IsFit e input =
      ((ap (λ b. wrap64 (length b)) (sym (reads-leaf_of input)), tt), (inl refl, tt))

  flush_chunk_lem :
      (f : FileAdder Cid) (e : List Bytes) (linked chunk : Bytes)
      → 1 ≤ f.collector.branching_factor
      → IsGrowingHere f.collector.branching_factor e linked f.unflushed_links
      → 1 ≤ length chunk
      → (next : List (Link Cid)) × (out : List (Cid × Bytes)) × (flush_chunk to_bytes
            render_and_hash f chunk
          ≡ returned (record f { block_buffer = []; unflushed_links = next }, out))
        × IsGrowingHere f.collector.branching_factor (after to_bytes e out) (linked ++ chunk) next
        × IsWritten to_bytes render_and_hash f.collector.branching_factor e out
        × (length out ≤ 2)
  unfolding flush_chunk flush_buffered_leaf flush_buffered_links
  flush_chunk_lem f e linked [] pos growing some_ = ground (arith, some_)
  flush_chunk_lem f e linked (b ∷ chunk) pos growing some_ =
      let input = b ∷ chunk in
      let leaf = leaf_link input in
      let (next, out, run, grown_, written, short) =
        grow_lem to_bytes render_and_hash reads reads_block f.collector e linked f.unflushed_links
          leaf pos growing refl (leaf_link-IsFit e input) in
      (
        next,
        render_and_hash (leaf_of input) ∷ out,
        rw run refl,
        subst
            (λ x.
              IsGrowingHere f.collector.branching_factor
                (after to_bytes (to_bytes leaf.target ∷ e) out) (linked ++ x) next)
            (reads-leaf_of input) grown_,
        ((leaf_of input, refl, omega arith, tt), written),
        omega (arith, short),
      )

  accept_lem :
      (max : ℕ) (input buffered : Bytes)
      → length buffered < max
      → accept (size max) input buffered
        ≡ returned (
          take (min (length input) (max - length buffered)) input,
          leb max (length buffered + min (length input) (max - length buffered)),
        )
  unfolding accept
  accept_lem max input buffered h =
      let fits : ltb max (length buffered) ≡ false = ground (arith, h) in rw fits refl

  pub length-take_le : (n : ℕ) (xs : Bytes) → n ≤ length xs → length (take n xs) ≡ n
  length-take_le n xs h = omega (arith, h, length-take n xs)

  pub empty_nil : (xs : Bytes) → is_empty xs ≡ true → xs ≡ []
  empty_nil [] h = refl
  empty_nil (x ∷ xs) h = cc

  push_ready :
      (f : FileAdder Cid) (input got : Bytes) (next : List (Link Cid)) (out : List (Cid × Bytes))
      → accept f.chunker input f.block_buffer ≡ returned (got, true)
      → flush_chunk to_bytes render_and_hash
          (record f { block_buffer = f.block_buffer ++ got })
          (f.block_buffer ++ got)
        ≡ returned (record f { block_buffer = []; unflushed_links = next }, out)
      → push to_bytes render_and_hash f input
        ≡ returned (record f { block_buffer = []; unflushed_links = next }, out, length got)
  unfolding push flush_chunk
  push_ready f input got next out h k = elim (Bool-cases (is_empty f.block_buffer)) [
    | inl none_ ↦
        let direct : flush_chunk to_bytes render_and_hash f got
            ≡ returned (record f { block_buffer = []; unflushed_links = next }, out) =
          subst
            (λ b.
              flush_chunk to_bytes render_and_hash (record f { block_buffer = b ++ got }) (b ++ got)
              ≡ returned (record f { block_buffer = []; unflushed_links = next }, out))
            (empty_nil f.block_buffer none_) k in
        rw (push, h, none_, direct) refl
    | inr some_ ↦ rw (push, h, some_, k) refl
  ]

  push_waits :
      (f : FileAdder Cid) (input got : Bytes)
      → accept f.chunker input f.block_buffer ≡ returned (got, false)
      → push to_bytes render_and_hash f input
        ≡ returned (record f { block_buffer = f.block_buffer ++ got }, [], length got)
  unfolding push
  push_waits f input got h = elim (Bool-cases (is_empty f.block_buffer)) [
    | inl e ↦ rw (push, h, e) refl
    | inr e ↦ rw (push, h, e) refl
  ]

  -- A push to an adder whose branching factor is two or more and whose buffer is not full never
  -- panics: it consumes as much of the input as fits into the chunk, and writes at most two blocks,
  -- each of at most as many links as the branching factor and all to blocks written before. The
  -- buffer does not get full, and the bytes of the links, as a reader takes them, followed by the
  -- buffered ones are those of before and the consumed ones.
  pub push_lem :
      (max : ℕ) (e : List Bytes) (bytes input : Bytes) (f : FileAdder Cid)
      → IsAdding max e bytes f
      → (next : FileAdder Cid) × (out : List (Cid × Bytes)) × (n : ℕ) × (push to_bytes
            render_and_hash f input
          ≡ returned (next, out, n))
        × (n ≡ min (length input) (max - length f.block_buffer))
        × (next.collector ≡ f.collector)
        × IsAdding max (after to_bytes e out) (bytes ++ take n input) next
        × IsWritten to_bytes render_and_hash f.collector.branching_factor e out
        × (length out ≤ 2)
  push_lem max e bytes input f a =
      let l = min (length input) (max - length f.block_buffer) in
      let got = take l input in
      let size_got : length got ≡ l = length-take_le l input (omega arith) in
      let accepted : accept f.chunker input f.block_buffer
          ≡ returned (got, leb max (length f.block_buffer + l)) =
        rw (a.chunked) (accept_lem max input f.block_buffer a.room) in
      let pos : 1 ≤ f.collector.branching_factor = omega (arith, a.branches) in
      let joined : a.linked ++ (f.block_buffer ++ got) ≡ bytes ++ got =
        rw (← append_assoc a.linked f.block_buffer got, a.all_bytes) refl in
      elim (Bool-cases (leb max (length f.block_buffer + l))) [
        | inl ready ↦
            let buffered = record f { block_buffer = f.block_buffer ++ got } in
            let (next, out, run, growing, written, short) =
              flush_chunk_lem buffered e a.linked (f.block_buffer ++ got) pos a.growing
                (ground (arith, a.room, ready, size_got, length-append f.block_buffer got)) in
            let f' = record f { block_buffer = []; unflushed_links = next } in
            (
              f',
              out,
              l,
              push_ready f input got next out (rw accepted (ap (λ r. returned (got, r)) ready)) run
                  ∙ ap (λ m. returned (f', out, m)) size_got,
              refl,
              refl,
              record {
                linked = a.linked ++ (f.block_buffer ++ got);
                chunked = a.chunked;
                branches = a.branches;
                growing = growing;
                all_bytes = append-nil (a.linked ++ (f.block_buffer ++ got)) ∙ joined;
                room = ground (arith, a.room);
              },
              written,
              short,
            )
        | inr waits ↦ (
          record f { block_buffer = f.block_buffer ++ got },
          [],
          l,
          push_waits f input got (rw accepted (ap (λ r. returned (got, r)) waits))
              ∙ ap (λ m. returned (record f { block_buffer = f.block_buffer ++ got }, [], m))
                  size_got,
          refl,
          refl,
          record {
            linked = a.linked;
            chunked = a.chunked;
            branches = a.branches;
            growing = a.growing;
            all_bytes = joined;
            room = ground (arith, waits, size_got, length-append f.block_buffer got);
          },
          tt,
          omega arith,
        )
      ]
