-- ===== src/Sdb/Tokens.antt =====
-- sdhs/Sdb.h, SdbGetNextToken: the field between a tab and the end of a line.
use lmalloc.Common.{
  ℕ, zero, suc, ◌+◌, ◌^◌, ◌<◌, ◌≡◌, ◌≢◌, ◌⊎◌, ap, ◌∙◌, arith, Option, none, some, ◌==◌, ◌&&◌, not,
  if◌then◌else◌, Bytes, put,
}

-- `sdb_token`
pub record SdbToken : Type 0 where
  pub start : ℕ
  pub len : ℕ

-- `while('\t' != **Cursor) (*Cursor)++`, which has no other end; `none` when the fuel runs out.
find_tab : ℕ → ℕ → Bytes → Option ℕ
find_tab zero cursor m = none
find_tab (suc fuel) cursor m =
    let rest = find_tab fuel (cursor + 1) m in if not (b'\t' == m cursor) then rest else some cursor

-- The second loop, from `cursor` on, with the length so far.
token_end : ℕ → ℕ → ℕ → Bytes → Option (ℕ × ℕ)
token_end zero cursor len m = none
token_end (suc fuel) cursor len m =
    let rest = token_end fuel (cursor + 1) (len + 1) m in
    if not (b'\n' == m cursor) && not (b'\r' == m cursor) then rest else some (cursor, len)

-- The NUL that takes the place of the end of the line.
finish_token : ℕ → Bytes → Option (ℕ × ℕ) → Option (SdbToken × ℕ × Bytes)
finish_token start m none = none
finish_token start m (some (cursor, len)) =
    some (
      record { start = start; len = len },
      cursor,
      if not (0 == m cursor) then put m cursor 0 else m,
    )

after_tab : Bytes → Option ℕ → Option (SdbToken × ℕ × Bytes)
unfolding token_end finish_token
after_tab m none = none
after_tab m (some tab) = finish_token (tab + 1) m (token_end (2 ^ 64) (tab + 1) 0 m)

-- The token, the cursor and the bytes after the call; the fuel of a loop is the size of the address space.
unfoldable pub sdb_get_next_token : ℕ → Bytes → Option (SdbToken × ℕ × Bytes)
unfolding find_tab after_tab
sdb_get_next_token cursor m = after_tab m (find_tab (2 ^ 64) cursor m)

find_tab-first :
    (fuel cursor k : ℕ) (m : Bytes)
    → k < fuel
    → ((i : ℕ) → i < k → m (cursor + i) ≢ b'\t')
    → m (cursor + k) ≡ b'\t'
    → find_tab fuel cursor m ≡ some (cursor + k)
unfolding find_tab
find_tab-first zero cursor k m lt before end = absurd (omega arith)
find_tab-first (suc fuel) cursor zero m lt before end =
    let e : cursor + 0 ≡ cursor = omega arith in let here = ap m e in ground arith
find_tab-first (suc fuel) cursor (suc k) m lt before end =
    let e : cursor + 0 ≡ cursor = omega arith in
    let here = ap m e in
    let other = before 0 (omega arith) in
    let last : cursor + suc k ≡ cursor + 1 + k = omega arith in
    let at_end = ap m last in
    let rest =
      find_tab-first fuel (cursor + 1) k m (omega arith)
        (λ i il z.
          before (suc i) (omega arith)
            (let f : cursor + suc i ≡ cursor + 1 + i = omega arith in ap m f ∙ z))
        (ground arith) in
    ground arith

-- Neither end of a line.
abbrev pub InLine : ℕ → Type 0
InLine c = (c ≢ b'\n') × (c ≢ b'\r')

token_end-first :
    (fuel cursor len k : ℕ) (m : Bytes)
    → k < fuel
    → ((i : ℕ) → i < k → InLine (m (cursor + i)))
    → (m (cursor + k) ≡ b'\n') ⊎ (m (cursor + k) ≡ b'\r')
    → token_end fuel cursor len m ≡ some (cursor + k, len + k)
unfolding token_end
token_end-first zero cursor len k m lt before end = absurd (omega arith)
token_end-first (suc fuel) cursor len zero m lt before end =
    let e : cursor + 0 ≡ cursor = omega arith in let here = ap m e in ground arith
token_end-first (suc fuel) cursor len (suc k) m lt before end =
    let e : cursor + 0 ≡ cursor = omega arith in
    let here = ap m e in
    let (n, r) = before 0 (omega arith) in
    let last : cursor + suc k ≡ cursor + 1 + k = omega arith in
    let at_end = ap m last in
    let rest =
      token_end-first fuel (cursor + 1) (len + 1) k m (omega arith)
        (λ i il.
          let (u, v) = before (suc i) (omega arith) in
          let f : cursor + suc i ≡ cursor + 1 + i = omega arith in
          ((λ z. u (ap m f ∙ z)), λ z. v (ap m f ∙ z)))
        (ground arith) in
    ground arith

-- On a line with a tab `i` bytes ahead, none before it, and then `k` bytes up to the end of the line: the call returns; the token
-- is the `k` bytes behind the tab, the cursor stands at its end, where a NUL is written, and no other byte changes.
pub sdb_get_next_token_lem :
    (cursor i k : ℕ) (m : Bytes)
    → i < 2 ^ 64
    → k < 2 ^ 64
    → ((j : ℕ) → j < i → m (cursor + j) ≢ b'\t')
    → m (cursor + i) ≡ b'\t'
    → ((j : ℕ) → j < k → InLine (m (cursor + i + 1 + j)))
    → (m (cursor + i + 1 + k) ≡ b'\n') ⊎ (m (cursor + i + 1 + k) ≡ b'\r')
    → sdb_get_next_token cursor m
      ≡ some (
        record { start = cursor + i + 1; len = k },
        cursor + i + 1 + k,
        put m (cursor + i + 1 + k) 0,
      )
unfolding sdb_get_next_token after_tab finish_token
sdb_get_next_token_lem cursor i k m li lk before tab line end =
    let start = cursor + i + 1 in
    let zero_add : 0 + k ≡ k = omega arith in
    ap (after_tab m) (find_tab-first (2 ^ 64) cursor i m li before tab)
    ∙ ap (finish_token start m) (token_end-first (2 ^ 64) start 0 k m lk line end)
    ∙ ap (λ n. finish_token start m (some (start + k, n))) zero_add
    ∙ ground arith
