-- ===== src/Tests/Files.antt =====
-- A lease as its file holds it.
use rsqlite_rsync.Base.{◌≡◌, refl, some, arith}
use rsqlite_rsync.KvText.{good, content}
use rsqlite_rsync.KvText.Chars.{chars}
use rsqlite_rsync.KvText.Lines.{IsValue, without-Without}
use rsqlite_rsync.Ha.Lease.{LeaseRecord}
use rsqlite_rsync.Ha.LeaseFile.{serialize_lease_record, read_lease}
use rsqlite_rsync.Ha.LeaseFile.Roundtrip.{read_lease-serialize_lease_record}

abbrev held : LeaseRecord
held = record { holder_node_id = "node a=1"; generation = 30; renewed_at_secs = 100; ttl_secs = 10 }

held-IsValue : IsValue (chars held.holder_node_id)
unfolding chars
held-IsValue = record {
  one_line = without-Without 10 (chars held.holder_node_id) refl;
  starts = refl;
  ends = refl;
}

read_lease-serialize_lease_record_example :
    read_lease (content (serialize_lease_record held)) ≡ good (some held)
read_lease-serialize_lease_record_example =
    read_lease-serialize_lease_record held held-IsValue (omega arith) (omega arith) (omega arith)
