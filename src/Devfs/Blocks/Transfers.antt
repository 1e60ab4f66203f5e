-- ===== src/Devfs/Blocks/Transfers.antt =====
-- What requests transfer between sectors of the device and the memory that their bios stand for.
use dionysus.Prelude.{
  ℕ, zero, suc, ◌+◌, ◌-◌, ◌*◌, ◌%◌, ◌≤◌, ◌<◌, ◌≡◌, ◌≢◌, ◌⊎◌, refl, sym, ap, ◌∙◌, Bool, true, false,
  ◌&&◌, List, [], ◌∷◌, ltb, leb, ◌==◌, if◌then◌else◌, arith, Bool-cases, inl, inr,
}
use dionysus.Devfs.Blocks.{Layer, BioPiece, Bytes, page_size, is_error, copy_in}
use dionysus.Devfs.Blocks.Split.{Covers}

-- bytes with some others in the place of theirs
pub place : (at len : ℕ) → Bytes → Bytes → Bytes
place at len new old = λ i. if leb at i && ltb i (at + len) then new (i - at) else old i

pub place-inside :
    (at len i : ℕ) (new old : Bytes) → at ≤ i → i < at + len → place at len new old i ≡ new (i - at)
unfolding place
place-inside at len i new old from to =
    let f : leb at i ≡ true = ground arith in
    let t : ltb i (at + len) ≡ true = ground arith in rw (f, t) refl

place-outside :
    (at len i : ℕ) (new old : Bytes)
    → ((k : ℕ) → k < len → at + k ≢ i)
    → place at len new old i ≡ old i
unfolding place
place-outside at len i new old out = elim (Bool-cases (leb at i)) [
  | inr less ↦ rw less refl
  | inl from ↦ elim (Bool-cases (ltb i (at + len))) [
    | inr more ↦ rw (from, more) refl
    | inl to ↦
        let le : at ≤ i = ground arith in
        let lt : i < at + len = ground arith in absurd (out (i - at) (omega arith) (omega arith))
  ]
]

-- the memory after a request has read sectors from the first one on, into what its bios stand for
unfoldable pub delivered : (ss : ℕ) → (disk : Bytes) → (first : ℕ) → List BioPiece → Bytes → Bytes
unfolding place
delivered ss disk first [] memory = memory
delivered ss disk first (b ∷ bs) memory =
    delivered ss disk (first + b.nsectors) bs
      (place (b.page + b.offset) (b.nsectors * ss) (λ i. disk (first * ss + i)) memory)

-- the device after a request has written sectors from the first one on, out of what its bios stand for
unfoldable pub taken : (ss : ℕ) → (memory : Bytes) → (first : ℕ) → List BioPiece → Bytes → Bytes
unfolding place
taken ss memory first [] disk = disk
taken ss memory first (b ∷ bs) disk =
    taken ss memory (first + b.nsectors) bs
      (place (first * ss) (b.nsectors * ss) (λ i. memory (b.page + b.offset + i)) disk)

-- A block layer whose requests succeed and transfer the sectors from the first on between the device and the
-- memory that the bios stand for.
pub record Serves (layer : Layer) (ss : ℕ) (disk : Bytes) : Type 0 where
  pub creates : (first : ℕ) (write : Bool) → layer.create first write ≡ true
  pub reads_ok :
      (first : ℕ) (bs : List BioPiece) (memory : Bytes)
      → is_error (layer.read first bs memory).0 ≡ false
  pub reads :
      (first : ℕ) (bs : List BioPiece) (memory : Bytes) (a : ℕ)
      → (layer.read first bs memory).1 a ≡ delivered ss disk first bs memory a
  pub writes_ok :
      (first : ℕ) (bs : List BioPiece) (memory : Bytes)
      → is_error (layer.write first bs memory).0 ≡ false
  pub writes :
      (first : ℕ) (bs : List BioPiece) (memory : Bytes) (b : ℕ)
      → (layer.write first bs memory).1 b ≡ taken ss memory first bs disk b

-- Distinct addresses are mapped to distinct ones, and a page to a page.
pub record IsMapped (layer : Layer) : Type 0 where
  pub injective : (a b : ℕ) → layer.resolve_physical a ≡ layer.resolve_physical b → a ≡ b
  pub linear :
      (a i : ℕ)
      → layer.resolve_physical a % page_size + i < page_size
      → layer.resolve_physical (a + i) ≡ layer.resolve_physical a + i

module _ (layer : Layer) (ss : ℕ) (mapped : IsMapped layer) where
  split_bytes : (m n : ℕ) → m ≤ n → m * ss + (n - m) * ss ≡ n * ss
  split_bytes m n le =
      let whole : m + (n - m) ≡ n = omega arith in omega (arith, ap (λ (x : ℕ). x * ss) whole)

  -- the bytes that the first bio stands for
  in_piece :
      (b : BioPiece) (addr i : ℕ)
      → b.page + b.offset ≡ layer.resolve_physical addr
      → b.offset ≡ layer.resolve_physical addr % page_size
      → b.offset + b.nsectors * ss ≤ page_size
      → i < b.nsectors * ss
      → layer.resolve_physical (addr + i) ≡ b.page + b.offset + i
  in_piece b addr i at offset inside less =
      mapped.linear addr i (omega (arith, offset, inside, less)) ∙ ap (λ (x : ℕ). x + i) (sym at)

  pub delivered-outside :
      (disk : Bytes) (first addr n : ℕ) (bs : List BioPiece) (memory : Bytes) (a : ℕ)
      → Covers layer ss addr n bs
      → ((i : ℕ) → i < n * ss → layer.resolve_physical (addr + i) ≢ a)
      → delivered ss disk first bs memory a ≡ memory a
  unfolding delivered
  delivered-outside disk first addr n [] memory a c out = refl
  delivered-outside disk first addr n (b ∷ bs) memory a (at, offset, inside, some_sectors, le, rest)
        out =
      let split = split_bytes b.nsectors n le in
      let new = place (b.page + b.offset) (b.nsectors * ss) (λ j. disk (first * ss + j)) memory in
      delivered-outside disk (first + b.nsectors) (addr + b.nsectors * ss) (n - b.nsectors) bs new a
        rest
        (λ i less e. out (b.nsectors * ss + i) (omega (arith, split)) (
          let same : addr + (b.nsectors * ss + i) ≡ addr + b.nsectors * ss + i = omega arith in
          ap layer.resolve_physical same ∙ e))
      ∙ place-outside (b.page + b.offset) (b.nsectors * ss) a (λ j. disk (first * ss + j)) memory
          (λ k less e. out k (omega (arith, split)) (in_piece b addr k at offset inside less ∙ e))

  pub delivered-inside :
      (disk : Bytes) (first addr n : ℕ) (bs : List BioPiece) (memory : Bytes) (i : ℕ)
      → Covers layer ss addr n bs
      → i < n * ss
      → delivered ss disk first bs memory (layer.resolve_physical (addr + i))
        ≡ disk (first * ss + i)
  unfolding delivered
  delivered-inside disk first addr n [] memory i c less =
      absurd (omega (arith, less, ap (λ (x : ℕ). x * ss) c))
  delivered-inside disk first addr n (b ∷ bs) memory i (at, offset, inside, some_sectors, le, rest)
        less =
      let split = split_bytes b.nsectors n le in
      let step = b.nsectors * ss in
      let new = place (b.page + b.offset) step (λ j. disk (first * ss + j)) memory in
      elim (Bool-cases (ltb i step)) [
        | inl here ↦
            let lt : i < b.nsectors * ss = ground arith in
            let back : b.page + b.offset + i - (b.page + b.offset) ≡ i = omega arith in
            delivered-outside disk (first + b.nsectors) (addr + step) (n - b.nsectors) bs new
              (layer.resolve_physical (addr + i)) rest
              (λ k l e. absurd (omega (arith, lt, mapped.injective (addr + step + k) (addr + i) e)))
            ∙ ap new (in_piece b addr i at offset inside lt)
            ∙ place-inside (b.page + b.offset) step (b.page + b.offset + i)
                (λ j. disk (first * ss + j)) memory (omega arith) (omega (arith, lt))
            ∙ ap (λ (x : ℕ). disk (first * ss + x)) back
        | inr past ↦
            let ge : b.nsectors * ss ≤ i = ground arith in
            let shift : addr + i ≡ addr + step + (i - step) = omega (arith, ge) in
            let same : (first + b.nsectors) * ss + (i - step) ≡ first * ss + i =
              omega (arith, ge) in
            ap (λ (x : ℕ). delivered ss disk (first + b.nsectors) bs new (layer.resolve_physical x))
              shift
            ∙ delivered-inside disk (first + b.nsectors) (addr + step) (n - b.nsectors) bs new
                (i - step) rest (omega (arith, split, less, ge))
            ∙ ap disk same
      ]

  pub taken-outside :
      (memory : Bytes) (first addr n : ℕ) (bs : List BioPiece) (disk : Bytes) (a : ℕ)
      → Covers layer ss addr n bs
      → (a < first * ss) ⊎ (first * ss + n * ss ≤ a)
      → taken ss memory first bs disk a ≡ disk a
  unfolding taken
  taken-outside memory first addr n [] disk a c out = refl
  taken-outside memory first addr n (b ∷ bs) disk a (at, offset, inside, some_sectors, le, rest)
        out =
      let split = split_bytes b.nsectors n le in
      let bytes = λ (j : ℕ). memory (b.page + b.offset + j) in
      let new = place (first * ss) (b.nsectors * ss) bytes disk in
      taken-outside memory (first + b.nsectors) (addr + b.nsectors * ss) (n - b.nsectors) bs new a
        rest
        (elim out [
          | inl less ↦ inl (omega (arith, less))
          | inr more ↦ inr (omega (arith, more, split))
        ])
      ∙ place-outside (first * ss) (b.nsectors * ss) a bytes disk (λ k less e. elim out [
        | inl below ↦ absurd (omega (arith, below, e))
        | inr more ↦ absurd (omega (arith, more, split, less, e))
      ])

  pub taken-inside :
      (memory : Bytes) (first addr n : ℕ) (bs : List BioPiece) (disk : Bytes) (i : ℕ)
      → Covers layer ss addr n bs
      → i < n * ss
      → taken ss memory first bs disk (first * ss + i) ≡ memory (layer.resolve_physical (addr + i))
  unfolding taken
  taken-inside memory first addr n [] disk i c less =
      absurd (omega (arith, less, ap (λ (x : ℕ). x * ss) c))
  taken-inside memory first addr n (b ∷ bs) disk i (at, offset, inside, some_sectors, le, rest)
        less =
      let split = split_bytes b.nsectors n le in
      let step = b.nsectors * ss in
      let first' = first + b.nsectors in
      let bytes = λ (j : ℕ). memory (b.page + b.offset + j) in
      let new = place (first * ss) step bytes disk in
      elim (Bool-cases (ltb i step)) [
        | inl here ↦
            let lt : i < b.nsectors * ss = ground arith in
            let back : first * ss + i - first * ss ≡ i = omega arith in
            taken-outside memory first' (addr + step) (n - b.nsectors) bs new (first * ss + i) rest
              (inl (omega (arith, lt)))
            ∙ place-inside (first * ss) step (first * ss + i) bytes disk (omega arith)
                (omega (arith, lt))
            ∙ ap bytes back
            ∙ ap memory (sym (in_piece b addr i at offset inside lt))
        | inr past ↦
            let ge : b.nsectors * ss ≤ i = ground arith in
            let same : addr + step + (i - step) ≡ addr + i = omega (arith, ge) in
            let shift : first * ss + i ≡ first' * ss + (i - step) = omega (arith, ge) in
            ap (taken ss memory first' bs new) shift
            ∙ taken-inside memory first' (addr + step) (n - b.nsectors) bs new (i - step) rest
                (omega (arith, split, less, ge))
            ∙ ap (λ (x : ℕ). memory (layer.resolve_physical x)) same
      ]

  -- the bytes that are copied in, and all others
  pub copy_in-inside :
      (addr count : ℕ) (buf memory : Bytes) (i : ℕ)
      → i < count
      → copy_in layer.resolve_physical addr count buf memory (layer.resolve_physical (addr + i))
        ≡ buf i
  unfolding copy_in
  copy_in-inside addr zero buf memory i less = absurd (omega arith)
  copy_in-inside addr (suc n) buf memory i less =
      let phys = layer.resolve_physical in
      elim (Bool-cases (phys (addr + i) == phys (addr + n))) [
        | inl e ↦
            let same = mapped.injective (addr + i) (addr + n) (ground arith) in
            rw e (ap buf (omega (arith, same)))
        | inr e ↦
            let ne : phys (addr + i) ≢ phys (addr + n) = ground arith in
            let other : i ≢ n = λ h. ne (ap (λ (x : ℕ). phys (addr + x)) h) in
            rw e (copy_in-inside addr n buf memory i (omega (arith, other)))
      ]

  pub copy_in-outside :
      (addr count : ℕ) (buf memory : Bytes) (x : ℕ)
      → (x < addr) ⊎ (addr + count ≤ x)
      → copy_in layer.resolve_physical addr count buf memory (layer.resolve_physical x)
        ≡ memory (layer.resolve_physical x)
  unfolding copy_in
  copy_in-outside addr zero buf memory x out = refl
  copy_in-outside addr (suc n) buf memory x out =
      let phys = layer.resolve_physical in
      let other : x ≢ addr + n = elim out [
        | inl less ↦ omega (arith, less)
        | inr more ↦ omega (arith, more)
      ] in
      let ne : phys x ≢ phys (addr + n) = λ e. other (mapped.injective x (addr + n) e) in
      let e : phys x == phys (addr + n) ≡ false = ground (arith, ne) in
      rw e (
        copy_in-outside addr n buf memory x
          (elim out [ inl less ↦ inl less | inr more ↦ inr (omega (arith, more)) ]))
