-- ===== src/Matching/Keys.antt =====
-- The order of `_sort_key`'s tuples, backend/ledgerloop/matching/core.py: a total order, in which
-- `key_lt b a ≡ false` says that `a` comes no later than `b`.
use ledger_loop.Prelude.{◌≡◌, ◌<◌, ◌≤◌, ◌⊎◌, true, false, arith}
use ledger_loop.Matching.{SortKey, key_lt}

pub key_lt_irrefl : (a : SortKey) → key_lt a a ≡ false
unfolding key_lt
key_lt_irrefl a = ground arith

pub key_lt_asymm : (a b : SortKey) → key_lt a b ≡ true → key_lt b a ≡ false
unfolding key_lt
key_lt_asymm a b h = ground arith

pub key_le_trans : (a b c : SortKey) → key_lt b a ≡ false → key_lt c b ≡ false → key_lt c a ≡ false
unfolding key_lt
key_le_trans a b c h k = ground arith

pub key_le_antisymm : (a b : SortKey) → key_lt b a ≡ false → key_lt a b ≡ false → a ≡ b
unfolding key_lt
key_le_antisymm a b h k = ground arith

-- `a` comes before `b` in the order of the tuples, or is equal to it, component by component.
abbrev pub NotAfter : SortKey → SortKey → Type 0
NotAfter a b =
    (a.rank < b.rank)
    ⊎ ((a.rank ≡ b.rank)
        × ((a.gap < b.gap)
            ⊎ ((a.gap ≡ b.gap)
                × ((a.diff < b.diff) ⊎ ((a.diff ≡ b.diff) × (a.row_id ≤ b.row_id))))))

pub key_lt-NotAfter : (a b : SortKey) → key_lt b a ≡ false → NotAfter a b
unfolding key_lt
key_lt-NotAfter a b h = ground arith
