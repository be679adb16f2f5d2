-- ===== src/Memory/Words.antt =====
-- Memory by words, each at the address of its first byte, and the loops over one page of it that
-- src/memory/vmm.cpp and paging.cpp contain.
use nemo_os.Base.{
  ℕ, zero, suc, ◌+◌, ◌*◌, ◌≤◌, ◌<◌, ◌≡◌, ◌≢◌, ◌⊎◌, refl, ap, ◌∙◌, inl, arith, ◌==◌, if◌then◌else◌,
}

-- `*a = v;`
unfoldable pub put : ℕ → ℕ → (ℕ → ℕ) → ℕ → ℕ
put a v word b = if b == a then v else word b

-- `for(i = 0; i < k; i++) d[i] = 0;`
unfoldable pub clear_words : ℕ → ℕ → (ℕ → ℕ) → ℕ → ℕ
clear_words zero d word = word
clear_words (suc k) d word = clear_words k (d + 4) (put d 0 word)

-- `for(i = 0; i < k; i++) d[i] = s[i];`
unfoldable pub copy_words : ℕ → ℕ → ℕ → (ℕ → ℕ) → ℕ → ℕ
copy_words zero d s word = word
copy_words (suc k) d s word = copy_words k (d + 4) (s + 4) (put d (word s) word)

pub put_self : (a v : ℕ) (word : ℕ → ℕ) → put a v word a ≡ v
unfolding put
put_self a v word = ground arith

pub put-ne : (a v b : ℕ) (word : ℕ → ℕ) → b ≢ a → put a v word b ≡ word b
unfolding put
put-ne a v b word h = ground arith

pub clear_words-outside :
    (k d b : ℕ) (word : ℕ → ℕ) → (b < d) ⊎ (d + 4 * k ≤ b) → clear_words k d word b ≡ word b
unfolding clear_words
clear_words-outside zero d b word h = refl
clear_words-outside (suc k) d b word h =
    clear_words-outside k (d + 4) b (put d 0 word) (ground arith)
    ∙ put-ne d 0 b word (λ e. ground arith)

pub clear_words-inside : (k d j : ℕ) (word : ℕ → ℕ) → j < k → clear_words k d word (d + 4 * j) ≡ 0
unfolding clear_words
clear_words-inside zero d j word h = absurd (omega arith)
clear_words-inside (suc k) d zero word h =
    clear_words-outside k (d + 4) (d + 4 * 0) (put d 0 word) (inl (omega arith))
    ∙ ap (put d 0 word) (omega arith)
    ∙ put_self d 0 word
clear_words-inside (suc k) d (suc j) word h =
    ap (clear_words k (d + 4) (put d 0 word)) (omega arith)
    ∙ clear_words-inside k (d + 4) j (put d 0 word) (omega arith)

pub copy_words-outside :
    (k d s b : ℕ) (word : ℕ → ℕ) → (b < d) ⊎ (d + 4 * k ≤ b) → copy_words k d s word b ≡ word b
unfolding copy_words
copy_words-outside zero d s b word h = refl
copy_words-outside (suc k) d s b word h =
    copy_words-outside k (d + 4) (s + 4) b (put d (word s) word) (ground arith)
    ∙ put-ne d (word s) b word (λ e. ground arith)

-- The source does not overlap the destination.
pub copy_words-inside :
    (k d s j : ℕ) (word : ℕ → ℕ)
    → (s + 4 * k ≤ d) ⊎ (d + 4 * k ≤ s)
    → j < k
    → copy_words k d s word (d + 4 * j) ≡ word (s + 4 * j)
unfolding copy_words
copy_words-inside zero d s j word h lt = absurd (omega arith)
copy_words-inside (suc k) d s zero word h lt =
    copy_words-outside k (d + 4) (s + 4) (d + 4 * 0) (put d (word s) word) (inl (omega arith))
    ∙ ap (put d (word s) word) (omega arith)
    ∙ put_self d (word s) word
    ∙ ap word (omega arith)
copy_words-inside (suc k) d s (suc j) word h lt =
    ap (copy_words k (d + 4) (s + 4) (put d (word s) word)) (omega arith)
    ∙ copy_words-inside k (d + 4) (s + 4) j (put d (word s) word) (ground arith) (omega arith)
    ∙ put-ne d (word s) (s + 4 + 4 * j) word (λ e. ground arith)
    ∙ ap word (omega arith)
