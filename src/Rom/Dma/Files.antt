-- ===== src/Rom/Dma/Files.antt =====
-- The loop of `yaz0_dmadata` of crates/ap64-core/src/transform.rs that lays the files out.
use multi.Common.{
  ℕ, ◌+◌, ◌-◌, ◌≤◌, ◌<◌, ◌≡◌, refl, sym, ap, subst, ◌∙◌, ◌⊎◌, inl, inr, List, [], ◌∷◌, Option, some,
  get_elem?, length, length-take, length-drop, drop, slice, All, Result, ok, err, WhenOk,
  WhenOk-bind, WhenOk-fail_if, WhenOk-weaken, true, ltb, leb, ◌==◌, arith, if◌then◌else◌,
  Bool-cases,
}
use multi.Common.Bytes.{IsByte}
use multi.Rom.Yaz0.{Yaz0Error, yaz0}
use multi.Rom.Yaz0.Lengths.{length-yaz0}
use multi.Rom.Dma.{
  DmaEntry, used, used_entries, holds, find_holder, put, in_vrom, file_data, copy_files,
}
use multi.Rom.Dma.Over.{get_elem?-drop, get_elem?-take, Outside, over-Outside, over-inside}

-- That a byte is as it was.
abbrev pub Same : ℕ → List ℕ → List ℕ → Type 0
Same i out out' = get_elem? out' i ≡ get_elem? out i

-- Where the bytes of an entry's file end at the latest: a compressed one may be longer than its entry says.
abbrev pub reach : DmaEntry → ℕ
reach e = if e.rom_end == 0 then e.vrom_end else e.vrom_end + 272

abbrev pub Apart : ℕ → DmaEntry → Type 0
Apart vrom e = (vrom < e.vrom_start) ⊎ (reach e ≤ vrom)

-- That no file behind the first that holds a byte is written over it.
unfoldable pub Alone : ℕ → List DmaEntry → Type 0
Alone vrom [] = Unit
Alone vrom (e ∷ es) = if holds vrom e then All (Apart vrom) es else Alone vrom es

put-WhenOk :
    (out : List ℕ) (place : ℕ) (bs : List ℕ) (i : ℕ)
    → Outside i place (length bs)
    → WhenOk (Same i out) (put out place bs)
put-WhenOk out place bs i h = elim (Bool-cases (leb (place + length bs) (length out))) [
  | inl e ↦ rw e (over-Outside out place bs i (ground arith) h)
  | inr e ↦ rw e tt
]

put-inside :
    (out : List ℕ) (place : ℕ) (bs : List ℕ) (i : ℕ)
    → place ≤ i
    → i < place + length bs
    → WhenOk (λ out'. get_elem? out' i ≡ get_elem? bs (i - place)) (put out place bs)
put-inside out place bs i p q = elim (Bool-cases (leb (place + length bs) (length out))) [
  | inl e ↦ rw e (over-inside out place bs i (ground arith) p q)
  | inr e ↦ rw e tt
]

pub find_holder-used :
    (es : List DmaEntry) (vrom : ℕ) → find_holder (used_entries es) vrom ≡ find_holder es vrom
unfolding find_holder used_entries
find_holder-used [] vrom = refl
find_holder-used (e ∷ es) vrom = elim (Bool-cases (used e)) [
  | inl p ↦ by_used p (find_holder-used es vrom)
  | inr p ↦ rw p (find_holder-used es vrom)
]
  where
    by_used :
        used e ≡ true
        → find_holder (used_entries es) vrom ≡ find_holder es vrom
        → find_holder (used_entries (e ∷ es)) vrom ≡ find_holder (e ∷ es) vrom
    by_used p rest =
        let step : used_entries (e ∷ es) ≡ e ∷ used_entries es = rw p refl in
        ap (λ xs. find_holder xs vrom) step ∙ ap (λ o. if holds vrom e then some e else o) rest

pub WhenOk-any {ℓ κ} : {E : Type ℓ} {A : Type κ} (r : Result E A) → WhenOk (λ a. Unit {0}) r
WhenOk-any (ok a) = tt
WhenOk-any (err e) = tt

holds→Holds :
    (e : DmaEntry) (vrom : ℕ) → holds vrom e ≡ true → (e.vrom_start ≤ vrom) × (vrom < e.vrom_end)
holds→Holds e vrom h = (ground arith, ground arith)

module _ (rom : List ℕ) (bytes : All IsByte rom) where
  in_vrom-WhenOk {κ} :
      (P : List ℕ → Type κ) (vrom : ℕ) (r : Result Yaz0Error (List ℕ))
      → WhenOk P r
      → WhenOk P (in_vrom vrom r)
  in_vrom-WhenOk P vrom (ok bs) p = p
  in_vrom-WhenOk P vrom (err e) p = tt

  -- A file ends where its entry reaches to.
  Ends : DmaEntry → List ℕ → Type 0
  Ends e bs = e.vrom_start + length bs ≤ reach e

  file_data-WhenOk :
      (e : DmaEntry)
      → e.vrom_start ≤ e.vrom_end
      → WhenOk (Ends e) (file_data rom e (e.vrom_end - e.vrom_start))
  unfolding file_data Ends
  file_data-WhenOk e h =
      let len = e.vrom_end - e.vrom_start in
      elim (Bool-cases (e.rom_end == 0)) [
        | inl p ↦
            let plain : reach e ≡ e.vrom_end = rw p refl in
            rw p (elim (Bool-cases (leb (e.rom_start + len) (length rom))) [
              | inl q ↦ rw q (
                  omega (
                    arith,
                    length-take (e.rom_start + len - e.rom_start) (drop e.rom_start rom),
                    h,
                    plain,
                  ))
              | inr q ↦ rw q tt
            ])
        | inr p ↦
            let packed : reach e ≡ e.vrom_end + 272 = rw p refl in
            rw p (
              in_vrom-WhenOk (Ends e) e.vrom_start (yaz0 rom e.rom_start len) (
                WhenOk-weaken (λ bs. length bs ≤ len + 272) (Ends e)
                  (λ bs q. omega (arith, q, h, packed)) (yaz0 rom e.rom_start len)
                  (length-yaz0 rom e.rom_start bytes len)))
      ]

  -- Files apart from a byte leave it.
  copy_files-Apart :
      (es : List DmaEntry) (out : List ℕ) (vrom : ℕ)
      → All (Apart vrom) es
      → WhenOk (Same vrom out) (copy_files rom es out)
  unfolding copy_files Ends
  copy_files-Apart [] out vrom h = refl
  copy_files-Apart (e ∷ es) out vrom h =
      WhenOk-fail_if (Same vrom out) (ltb e.vrom_end e.vrom_start) _ _ λ ordered.
        WhenOk-bind (Ends e) (Same vrom out) (file_data rom e (e.vrom_end - e.vrom_start)) _
          (file_data-WhenOk e (ground arith))
          λ bs ends.
            WhenOk-bind (Same vrom out) (Same vrom out) (put out e.vrom_start bs)
              (λ out'. copy_files rom es out')
              (put-WhenOk out e.vrom_start bs vrom (outside bs ends h.0))
              λ out' same.
                WhenOk-weaken (Same vrom out') (Same vrom out) (λ last q. q ∙ same)
                  (copy_files rom es out') (copy_files-Apart es out' vrom h.1)
    where
      outside : (bs : List ℕ) → Ends e bs → Apart vrom e → Outside vrom e.vrom_start (length bs)
      outside bs ends (inl p) = inl p
      outside bs ends (inr p) = inr (omega (arith, ends, p))

  -- Where a plain file has a byte of its span in the ROM.
  abbrev pub stored_at : DmaEntry → ℕ → ℕ
  stored_at e vrom = e.rom_start + (vrom - e.vrom_start)

  abbrev Holds : DmaEntry → ℕ → Type 0
  Holds e vrom = (e.vrom_start ≤ vrom) × (vrom < e.vrom_end)

  -- That the image has at `vrom` what the ROM has where the file is stored.
  abbrev pub Stored : DmaEntry → ℕ → List ℕ → Type 0
  Stored e vrom out =
      (stored_at e vrom < length rom) × (get_elem? out vrom ≡ get_elem? rom (stored_at e vrom))

  -- The data of a plain file.
  abbrev Plain : DmaEntry → List ℕ → Type 0
  Plain e bs =
      let len = e.vrom_end - e.vrom_start in
      (e.rom_start + len ≤ length rom) × (bs ≡ slice rom e.rom_start (e.rom_start + len))

  file_data-Plain :
      (e : DmaEntry)
      → (e.rom_end == 0) ≡ true
      → WhenOk (Plain e) (file_data rom e (e.vrom_end - e.vrom_start))
  unfolding file_data
  file_data-Plain e p =
      let len = e.vrom_end - e.vrom_start in
      rw p (elim (Bool-cases (leb (e.rom_start + len) (length rom))) [
        | inl q ↦ rw q (ground arith, refl)
        | inr q ↦ rw q tt
      ])

  put-Stored :
      (e : DmaEntry) (vrom : ℕ) (out bs : List ℕ)
      → Holds e vrom
      → Plain e bs
      → WhenOk (Stored e vrom) (put out e.vrom_start bs)
  put-Stored e vrom out bs (p, q) (inside, data_lem) =
      let len = e.vrom_end - e.vrom_start in
      let i = vrom - e.vrom_start in
      let size : length bs ≡ len = ap length data_lem ∙ size_of in
      let read : get_elem? bs i ≡ get_elem? rom (e.rom_start + i) =
        ap (λ ys. get_elem? ys i) data_lem
        ∙ get_elem?-take (e.rom_start + len - e.rom_start) (drop e.rom_start rom) i
            (omega (arith, p, q))
        ∙ get_elem?-drop e.rom_start rom i in
      WhenOk-weaken (λ out'. get_elem? out' vrom ≡ get_elem? bs i) (Stored e vrom)
        (λ out' h. (omega (arith, inside, p, q), h ∙ read)) (put out e.vrom_start bs)
        (put-inside out e.vrom_start bs vrom p (omega (arith, size, p, q)))
    where
      size_of :
          length (slice rom e.rom_start (e.rom_start + (e.vrom_end - e.vrom_start)))
          ≡ e.vrom_end - e.vrom_start
      size_of = omega (
        arith,
        inside,
        length-take (e.rom_start + (e.vrom_end - e.vrom_start) - e.rom_start)
            (drop e.rom_start rom),
        length-drop e.rom_start rom,
      )

  first_holder :
      (e : DmaEntry) (es : List DmaEntry) (out : List ℕ) (vrom : ℕ)
      → holds vrom e ≡ true
      → (e.rom_end == 0) ≡ true
      → All (Apart vrom) es
      → WhenOk (Stored e vrom) (copy_files rom (e ∷ es) out)
  unfolding copy_files
  first_holder e es out vrom t p h =
      WhenOk-fail_if (Stored e vrom) (ltb e.vrom_end e.vrom_start) _ _ λ ordered.
        WhenOk-bind (Plain e) (Stored e vrom) (file_data rom e (e.vrom_end - e.vrom_start)) _
          (file_data-Plain e p)
          λ bs plain.
            WhenOk-bind (Stored e vrom) (Stored e vrom) (put out e.vrom_start bs)
              (λ out'. copy_files rom es out')
              (put-Stored e vrom out bs (holds→Holds e vrom t) plain)
              λ out' q.
                WhenOk-weaken (Same vrom out') (Stored e vrom) (λ last same. (q.0, same ∙ q.1))
                  (copy_files rom es out') (copy_files-Apart es out' vrom h)

  later_holder {κ} :
      (P : List ℕ → Type κ) (e : DmaEntry) (es : List DmaEntry) (out : List ℕ)
      → ((out' : List ℕ) → WhenOk P (copy_files rom es out'))
      → WhenOk P (copy_files rom (e ∷ es) out)
  unfolding copy_files
  later_holder P e es out next = WhenOk-fail_if P (ltb e.vrom_end e.vrom_start) _ _ λ ordered.
      WhenOk-bind (λ bs. Unit {0}) P (file_data rom e (e.vrom_end - e.vrom_start)) _
        (WhenOk-any (file_data rom e (e.vrom_end - e.vrom_start)))
        λ bs u.
          WhenOk-bind (λ out'. Unit {0}) P (put out e.vrom_start bs)
            (λ out'. copy_files rom es out') (WhenOk-any (put out e.vrom_start bs))
            λ out' v. next out'

  pub copy_files-Stored :
      (es : List DmaEntry) (out : List ℕ) (vrom : ℕ) (e : DmaEntry)
      → find_holder es vrom ≡ some e
      → (e.rom_end == 0) ≡ true
      → Alone vrom es
      → WhenOk (Stored e vrom) (copy_files rom es out)
  unfolding find_holder Alone
  copy_files-Stored [] out vrom e f p h = absurd cc
  copy_files-Stored (e' ∷ es) out vrom e f p h = elim (Bool-cases (holds vrom e')) [
    | inl t ↦ at_first t (rw t at f) (rw t at h)
    | inr t ↦
        later_holder (Stored e vrom) e' es out
          λ out'. copy_files-Stored es out' vrom e (rw t at f) p (rw t at h)
  ]
    where
      at_first :
          holds vrom e' ≡ true
          → ◌≡◌ {A = Option DmaEntry} (some e') (some e)
          → All (Apart vrom) es
          → WhenOk (Stored e vrom) (copy_files rom (e' ∷ es) out)
      at_first t f h =
          let same : e' ≡ e = cc in
          subst (λ x. WhenOk (Stored x vrom) (copy_files rom (e' ∷ es) out)) same
            (first_holder e' es out vrom t (subst (λ x. (x.rom_end == 0) ≡ true) (sym same) p) h)
