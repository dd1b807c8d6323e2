-- ===== src/KvText/Prefixes.antt =====
-- src/kv_text.rs and the other readers of texts: a prefix that is stripped.
use Prim.Native.Char.{Char}
use mathlib.Core.Option.{some-injective}
use text.Mathlib.TextEquality.{Char-path}
use rsqlite_rsync.Base.{◌≡◌, refl, List, [], ◌∷◌, ◌++◌, some, arith}
use rsqlite_rsync.KvText.Chars.{strip_prefix}

pub strip_prefix-append : (p s : List Char) → strip_prefix p (p ++ s) ≡ some s
unfolding strip_prefix
strip_prefix-append [] s = refl
strip_prefix-append (c ∷ p) s = ground (arith, strip_prefix-append p s)

pub append-strip_prefix : (p s r : List Char) → strip_prefix p s ≡ some r → s ≡ p ++ r
unfolding strip_prefix
append-strip_prefix [] s r e = some-injective s r e
append-strip_prefix (c ∷ p) [] r e = cc
append-strip_prefix (c ∷ p) (d ∷ s) r e = ground (arith, append-strip_prefix p s r, Char-path c d)
