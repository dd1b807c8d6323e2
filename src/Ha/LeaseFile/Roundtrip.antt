-- ===== src/Ha/LeaseFile/Roundtrip.antt =====
-- src/ha.rs: what `FileLeaseReader` reads of a file that `serialize_lease_record` wrote.
use Prim.Native.Char.{Char}
use mathlib.Core.List.{append_assoc}
use rsqlite_rsync.Base.{ℕ, String, ◌≤◌, ◌≡◌, refl, sym, ap, ◌∙◌, List, [], ◌∷◌, ◌++◌, Option, some}
use rsqlite_rsync.KvText.{
  KvMap, KvResult, good, then_kv, content, trim, lines, parse_kv_lines, insert_lines, record_text,
  lookup, require_u64, require_non_empty,
}
use rsqlite_rsync.KvText.Chars.{chars, text-chars, display}
use rsqlite_rsync.KvText.Numbers.{display-AllDigits, display-NonEmpty, parse_u64-display}
use rsqlite_rsync.KvText.Lines.{
  IsValue, StartsTight, raw_line, raw_line-IsValue, insert_line-raw_line, lines-line, lines-last,
  digits-IsValue, trim_end-one, EndsTight, EndsTight-append,
}
use rsqlite_rsync.Ha.Lease.{LeaseRecord}
use rsqlite_rsync.Ha.LeaseFile.Keys.{
  lease_keys, holder-IsKey, generation-IsKey, renewed-IsKey, ttl-IsKey,
}
use rsqlite_rsync.Ha.LeaseFile.{
  line_of, serialize_lease_record, lease_of_map, parse_lease_record, parse_present, read_lease,
}

display-IsValue : (n : ℕ) → IsValue (display n)
display-IsValue n = digits-IsValue (display n) (display-AllDigits n) (display-NonEmpty n)

-- A line and what follows.
line_of-append :
    (key : String) (value rest : List Char)
    → line_of key value ++ rest ≡ raw_line (chars key) value ++ ("\n" ∷ rest)
unfolding chars
line_of-append key value rest = append_assoc (raw_line (chars key) value) ("\n" ∷ []) rest

joined :
    (key : String) (value rest tail : List Char)
    → rest ≡ tail ++ ("\n" ∷ [])
    → line_of key value ++ rest ≡ (raw_line (chars key) value ++ ("\n" ∷ tail)) ++ ("\n" ∷ [])
joined key value rest tail e =
    line_of-append key value rest
    ∙ ap (λ (s : List Char). raw_line (chars key) value ++ ("\n" ∷ s)) e
    ∙ sym (append_assoc (raw_line (chars key) value) ("\n" ∷ tail) ("\n" ∷ []))

last_line :
    (key : String) (value : List Char)
    → line_of key value ≡ raw_line (chars key) value ++ ("\n" ∷ [])
unfolding chars
last_line key value = refl

after_line : (l s : List Char) → EndsTight s → EndsTight (l ++ ("\n" ∷ s))
after_line l s h = EndsTight-append l ("\n" ∷ s) (EndsTight-append ("\n" ∷ []) s h)

-- The number of one line is read back.
read_number :
    (map : KvMap) (key : List Char) (n : ℕ)
    → n ≤ 18446744073709551615
    → lookup map key ≡ some (display n)
    → require_u64 map key ≡ good n
unfolding require_u64
read_number map key n fits found = rw (found, parse_u64-display n fits) refl

read_name :
    (map : KvMap) (key value : List Char)
    → StartsTight value
    → lookup map key ≡ some value
    → require_non_empty map key ≡ good value
unfolding require_non_empty
read_name map key [] tight found = absurd tight
read_name map key (c ∷ s) tight found = rw found refl

module _ (lease : LeaseRecord) where
  abbrev first : List Char
  first = raw_line (chars "holder_node_id") (chars lease.holder_node_id)

  abbrev second : List Char
  second = raw_line (chars "generation") (display lease.generation)

  abbrev third : List Char
  third = raw_line (chars "renewed_at_secs") (display lease.renewed_at_secs)

  abbrev fourth : List Char
  fourth = raw_line (chars "ttl_secs") (display lease.ttl_secs)

  -- The file without its last end of line.
  abbrev body : List Char
  body = first ++ ("\n" ∷ (second ++ ("\n" ∷ (third ++ ("\n" ∷ fourth)))))

  serialize-body : serialize_lease_record lease ≡ body ++ ("\n" ∷ [])
  unfolding serialize_lease_record
  serialize-body = joined "holder_node_id" (chars lease.holder_node_id) _ _ (
      joined "generation" (display lease.generation) _ _ (
        joined "renewed_at_secs" (display lease.renewed_at_secs) _ _
          (last_line "ttl_secs" (display lease.ttl_secs))))

  module _ (named : IsValue (chars lease.holder_node_id)) where
    first-IsValue : IsValue first
    first-IsValue = raw_line-IsValue lease_keys _ _ holder-IsKey named

    second-IsValue : IsValue second
    second-IsValue = raw_line-IsValue lease_keys _ _ generation-IsKey (display-IsValue _)

    third-IsValue : IsValue third
    third-IsValue = raw_line-IsValue lease_keys _ _ renewed-IsKey (display-IsValue _)

    fourth-IsValue : IsValue fourth
    fourth-IsValue = raw_line-IsValue lease_keys _ _ ttl-IsKey (display-IsValue _)

    body-EndsTight : EndsTight body
    body-EndsTight =
        after_line first (second ++ ("\n" ∷ (third ++ ("\n" ∷ fourth)))) (
          after_line second (third ++ ("\n" ∷ fourth))
            (after_line third fourth fourth-IsValue.ends))

    trim-body : trim (serialize_lease_record lease) ≡ body
    unfolding chars
    trim-body = ap trim serialize-body ∙ trim_end-one body "\n" body-EndsTight refl

    lines-body : lines body ≡ first ∷ second ∷ third ∷ fourth ∷ []
    unfolding chars
    lines-body =
        lines-line first _ first-IsValue.one_line
        ∙ ap (λ (ls : List (List Char)). first ∷ ls)
            (lines-line second _ second-IsValue.one_line
              ∙ ap (λ (ls : List (List Char)). second ∷ ls)
                  (lines-line third _ third-IsValue.one_line
                    ∙ ap (λ (ls : List (List Char)). third ∷ ls)
                        (lines-last fourth fourth-IsValue.one_line tt)))

    inserted :
        parse_kv_lines (chars "lease") lease_keys body
        ≡ good (
            (chars "ttl_secs", display lease.ttl_secs)
            ∷ (chars "renewed_at_secs", display lease.renewed_at_secs)
            ∷ (chars "generation", display lease.generation)
            ∷ (chars "holder_node_id", chars lease.holder_node_id)
            ∷ [])
    unfolding parse_kv_lines
    inserted =
        ap (λ (ls : List (List Char)). insert_lines (chars "lease") lease_keys ls []) lines-body
        ∙ insert_line-raw_line (chars "lease") lease_keys _ _ _ _ holder-IsKey named
        ∙ insert_line-raw_line (chars "lease") lease_keys _ _ _ _ generation-IsKey
            (display-IsValue _)
        ∙ insert_line-raw_line (chars "lease") lease_keys _ _ _ _ renewed-IsKey (display-IsValue _)
        ∙ insert_line-raw_line (chars "lease") lease_keys _ _ _ _ ttl-IsKey (display-IsValue _)

    module _ (generation_fits : lease.generation ≤ 18446744073709551615)
        (renewed_fits : lease.renewed_at_secs ≤ 18446744073709551615)
        (ttl_fits : lease.ttl_secs ≤ 18446744073709551615) where
      abbrev entries : KvMap
      entries =
          (chars "ttl_secs", display lease.ttl_secs)
          ∷ (chars "renewed_at_secs", display lease.renewed_at_secs)
          ∷ (chars "generation", display lease.generation)
          ∷ (chars "holder_node_id", chars lease.holder_node_id)
          ∷ []

      lease_of_entries : lease_of_map entries ≡ good lease
      unfolding lease_of_map lookup chars
      lease_of_entries =
          rw
            (
              read_name entries (chars "holder_node_id") (chars lease.holder_node_id) named.starts
                  refl,
              read_number entries (chars "generation") lease.generation generation_fits refl,
              read_number entries (chars "renewed_at_secs") lease.renewed_at_secs renewed_fits refl,
              read_number entries (chars "ttl_secs") lease.ttl_secs ttl_fits refl,
            )
            (ap (λ (name : String). good (record lease { holder_node_id = name }))
              (text-chars lease.holder_node_id))

      present : record_text body ≡ some body
      unfolding record_text chars
      present = refl

      -- The reader of the lease file gives back a lease that was serialized to it. The holder's name is
      -- not empty, has no end of line and no white space at its ends, and the numbers fit in 64 bits; the
      -- name may hold the sign `=`, since a line is split at its first one.
      pub read_lease-serialize_lease_record :
          read_lease (content (serialize_lease_record lease)) ≡ good (some lease)
      unfolding read_lease parse_lease_record
      read_lease-serialize_lease_record =
          ap (λ (s : List Char). then_kv (good (record_text s)) parse_present) trim-body
          ∙ ap (λ (o : Option (List Char)). parse_present o) present
          ∙ ap (λ (r : KvResult KvMap). then_kv (then_kv r lease_of_map) (λ l. good (some l)))
              inserted
          ∙ ap (λ (r : KvResult LeaseRecord). then_kv r (λ l. good (some l))) lease_of_entries
