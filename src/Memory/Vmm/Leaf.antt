-- ===== src/Memory/Vmm/Leaf.antt =====
-- src/memory/vmm.cpp: `pt[pt_idx] = v`, in `vmm_map` and `vmm_unmap`.
use nemo_os.Base.{
  ℕ, ◌+◌, ◌*◌, ◌/◌, ◌^◌, ◌<◌, ◌≡◌, ◌≢◌, sym, ap, ◌∙◌, inl, inr, true, arith, ◌==◌, Bool-cases,
}
use nemo_os.Memory.Pmm.{Pmm}
use nemo_os.Memory.Words.{put, put_self, put-ne}
use nemo_os.Memory.Vmm.{is_present, frame_of, pd_index, pt_index}
use nemo_os.Memory.Vmm.Inv.{leaf, IsSpace}

-- A space is read from its directory alone.
pub IsSpace-ext :
    {p : Pmm} {word : ℕ → ℕ} {space : ℕ} (word' : ℕ → ℕ)
    → ((i : ℕ) → i < 1024 → word' (space + 4 * i) ≡ word (space + 4 * i))
    → IsSpace p word space
    → IsSpace p word' space
IsSpace-ext {word} {space} word' same s = record {
  aligned = s.aligned;
  live = s.live;
  table_live = λ i lt. rw (same i lt) (s.table_live i lt);
  apart = λ i lt. rw (same i lt) (s.apart i lt);
  distinct = λ i j lt lt' ne. rw (same i lt, same j lt') (s.distinct i j lt lt' ne);
}

module _ (p : Pmm) (word : ℕ → ℕ) (space : ℕ) (s : IsSpace p word space) (v virt : ℕ)
    (small : virt < 2 ^ 32) (there : is_present (word (space + 4 * pd_index virt)) ≡ true) where
  abbrev pt : ℕ
  pt = frame_of (word (space + 4 * pd_index virt))

  abbrev after : ℕ → ℕ
  after = put (pt + 4 * pt_index virt) v word

  pub directory-kept : (i : ℕ) → i < 1024 → after (space + 4 * i) ≡ word (space + 4 * i)
  directory-kept i lt =
      put-ne (pt + 4 * pt_index virt) v (space + 4 * i) word
        (λ e. s.apart (pd_index virt) (omega arith) there (omega (arith, s.aligned)))

  pub leaf-here : leaf after space virt ≡ v
  unfolding leaf
  leaf-here =
      rw (directory-kept (pd_index virt) (omega arith), there)
        (put_self (pt + 4 * pt_index virt) v word)

  -- An entry that is not the one written is in another table, or elsewhere in this one.
  other_entry :
      (w : ℕ)
      → w < 2 ^ 32
      → w / 4096 ≢ virt / 4096
      → is_present (word (space + 4 * pd_index w)) ≡ true
      → frame_of (word (space + 4 * pd_index w)) + 4 * pt_index w ≢ pt + 4 * pt_index virt
  other_entry w lt ne h e = elim (Bool-cases (pd_index w == pd_index virt)) [
    | inl eq ↦
        let same : pd_index w ≡ pd_index virt = ground arith in
        let e' : pt + 4 * pt_index w ≡ pt + 4 * pt_index virt =
          ap (λ i. frame_of (word (space + 4 * i)) + 4 * pt_index w) (sym same) ∙ e in
        ne (omega arith)
    | inr differ ↦
        s.distinct (pd_index w) (pd_index virt) (omega arith) (omega arith) (λ q. ground arith) h
          there (omega arith)
  ]

  pub leaf-elsewhere :
      (w : ℕ) → w < 2 ^ 32 → w / 4096 ≢ virt / 4096 → leaf after space w ≡ leaf word space w
  unfolding leaf
  leaf-elsewhere w lt ne = elim (Bool-cases (is_present (word (space + 4 * pd_index w)))) [
    | inl h ↦
        rw (directory-kept (pd_index w) (omega arith), h)
          (put-ne (pt + 4 * pt_index virt) v
            (frame_of (word (space + 4 * pd_index w)) + 4 * pt_index w) word
            (other_entry w lt ne h))
    | inr h ↦ rw (directory-kept (pd_index w) (omega arith), h)
  ]

  pub after-IsSpace : IsSpace p after space
  after-IsSpace = IsSpace-ext after directory-kept s
