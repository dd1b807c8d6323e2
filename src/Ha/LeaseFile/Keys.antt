-- ===== src/Ha/LeaseFile/Keys.antt =====
-- src/ha.rs: the keys of the lease file.
use Prim.Native.Char.{Char}
use rsqlite_rsync.Base.{List, [], ◌∷◌, refl}
use rsqlite_rsync.KvText.Chars.{chars}
use rsqlite_rsync.KvText.Lines.{IsKey, without-Without}

abbrev pub lease_keys : List (List Char)
lease_keys =
    chars "holder_node_id" ∷ chars "generation" ∷ chars "renewed_at_secs" ∷ chars "ttl_secs" ∷ []

pub holder-IsKey : IsKey lease_keys (chars "holder_node_id")
unfolding chars
holder-IsKey = record {
  no_equals = without-Without 61 (chars "holder_node_id") refl;
  value = record {
    one_line = without-Without 10 (chars "holder_node_id") refl;
    starts = refl;
    ends = refl;
  };
  known = refl;
}

pub generation-IsKey : IsKey lease_keys (chars "generation")
unfolding chars
generation-IsKey = record {
  no_equals = without-Without 61 (chars "generation") refl;
  value = record {
    one_line = without-Without 10 (chars "generation") refl;
    starts = refl;
    ends = refl;
  };
  known = refl;
}

pub renewed-IsKey : IsKey lease_keys (chars "renewed_at_secs")
unfolding chars
renewed-IsKey = record {
  no_equals = without-Without 61 (chars "renewed_at_secs") refl;
  value = record {
    one_line = without-Without 10 (chars "renewed_at_secs") refl;
    starts = refl;
    ends = refl;
  };
  known = refl;
}

pub ttl-IsKey : IsKey lease_keys (chars "ttl_secs")
unfolding chars
ttl-IsKey = record {
  no_equals = without-Without 61 (chars "ttl_secs") refl;
  value = record {
    one_line = without-Without 10 (chars "ttl_secs") refl;
    starts = refl;
    ends = refl;
  };
  known = refl;
}
