-- ===== src/Protocol/Origin/Fine.antt =====
-- src/protocol/origin.rs: the fine pass of one group, and the handler as a process.
use rsqlite_rsync.Base.{
  ℕ, ◌+◌, List, [], ◌∷◌, ◌++◌, map, Option, none, some, length, flatten_options, range_inclusive,
  bytes_eq, min, max, ◌==◌, not, ◌&&◌, if◌then◌else◌,
}
use rsqlite_rsync.Hash.{HashAlgorithm, Digests, hash_page_for, from_protocol_version}
use rsqlite_rsync.Tuning.{SyncTuning}
use rsqlite_rsync.Snapshot.{Snapshot}
use rsqlite_rsync.Error.{Result, ok, err, panic, protocol, page_size_mismatch, and_then, collect}
use rsqlite_rsync.Protocol.{Rayon, map_tuned, u32}
use rsqlite_rsync.Protocol.Messages.{
  Message, PageData, hello, hello_ack, group_hashes, groups_need_fine, page_hashes, send_pages,
  pages_ack, done, error, plain, format, format_debug, protocol_version,
}
use rsqlite_rsync.Protocol.Process.{
  Process, finish, ◌>>=◌, ◌>>◌, send_message, receive, pure, fail, protocol_violation,
}
use rsqlite_rsync.Protocol.Origin.Checks.{
  validate_page_hashes_for_group, validate_pages_ack, first_page_of, last_page_of,
}
use rsqlite_rsync.Protocol.Origin.Coarse.{page_slice, groups_to_refine}

-- `replica_page_nos.iter().zip(replica_page_hashes)`, up to the shorter list.
abbrev pub pair_up : List ℕ → List (List ℕ) → List (ℕ × List ℕ)
pair_up [] hs = []
pair_up (n ∷ ns) [] = []
pair_up (n ∷ ns) (h ∷ hs) = (n, h) ∷ pair_up ns hs

-- `.iter().copied().max()`.
abbrev pub max_with : ℕ → Option ℕ → ℕ
max_with n none = n
max_with n (some m) = max n m

abbrev pub list_max : List ℕ → Option ℕ
list_max [] = none
list_max (n ∷ ns) = some (max_with n (list_max ns))

-- The first page of the group that the replica did not list.
abbrev pub next_missing : Option ℕ → ℕ → ℕ
next_missing none first_page = first_page
next_missing (some page_no) first_page = u32 (page_no + 1)

abbrev pub page_no_of : PageData → ℕ
page_no_of p = p.page_no

-- An error of a validator is told to the peer if it is a protocol error.
abbrev pub report : Result (Unit {0}) → Process (Unit {0})
report (ok u) = finish (ok u)
report (err (protocol t)) = protocol_violation t
report (err e) = finish (err e)
report panic = finish panic

unfoldable pub changed_page_for :
    Digests → Snapshot → HashAlgorithm → ℕ × List ℕ → Result (Option PageData)
unfolding page_slice
changed_page_for d snap alg (page_no, replica_hash) =
    and_then (page_slice snap.bytes snap.page_size page_no) λ content. ok (
      if bytes_eq (hash_page_for d content alg) replica_hash
      then none
      else some (record { page_no = page_no; content = content }))

-- A page that exists only on the origin.
unfoldable pub missing_page : Snapshot → ℕ → Result PageData
unfolding page_slice
missing_page snap page_no =
    and_then (page_slice snap.bytes snap.page_size page_no)
      λ content. ok (record { page_no = page_no; content = content })

abbrev expect_hello : Message → Process (ℕ × ℕ)
expect_hello (hello version page_size page_count) = pure (version, page_size)
expect_hello (error message) = fail (protocol message)
expect_hello other = protocol_violation (format_debug "expected Hello, got {}" other)

abbrev expect_group_hashes : Message → Process (ℕ × List (List ℕ))
expect_group_hashes (group_hashes first_group hashes) = pure (first_group, hashes)
expect_group_hashes (error message) = fail (protocol message)
expect_group_hashes other = protocol_violation (format_debug "expected GroupHashes, got {}" other)

abbrev pub known_algorithm : ℕ → Option HashAlgorithm → Process HashAlgorithm
known_algorithm version none =
    fail (protocol (format "unsupported negotiated protocol version {}" (version ∷ [])))
known_algorithm version (some alg) = pure alg

-- Version 0 is refused; a page size of 0 stands for a replica that has none yet.
abbrev check_version : ℕ → Process (Unit {0})
check_version version =
    if version == 0
    then protocol_violation (plain "replica offered unsupported protocol version 0")
    else pure tt

abbrev expect_page_hashes : Message → Process (List ℕ × List (List ℕ))
expect_page_hashes (page_hashes page_nos hashes) = pure (page_nos, hashes)
expect_page_hashes done =
    protocol_violation (plain "received Done before all requested fine-pass groups were processed")
expect_page_hashes (error message) = fail (protocol message)
expect_page_hashes other = protocol_violation (format_debug "expected PageHashes, got {}" other)

abbrev expect_pages_ack : Message → Process (List ℕ)
expect_pages_ack (pages_ack page_nos) = pure page_nos
expect_pages_ack (error message) = fail (protocol message)
expect_pages_ack other = protocol_violation (format_debug "expected PagesAck, got {}" other)

abbrev check_first_group : ℕ → Process (Unit {0})
check_first_group first_group =
    if first_group == 0
    then pure tt
    else protocol_violation (
        format
          "unsupported GroupHashes.first_group={}; this protocol version requires first_group=0"
          (first_group ∷ []))

module _ (d : Digests) (rayon : Rayon) (tuning : SyncTuning) (snap : Snapshot) where
  -- What the origin sends for one group.
  unfoldable pub changed_pages : HashAlgorithm → ℕ → List ℕ → List (List ℕ) → Result (List PageData)
  unfolding changed_page_for missing_page
  changed_pages alg group page_nos hashes =
      and_then
        (map_tuned rayon tuning (u32 (length page_nos)) (changed_page_for d snap alg)
          (pair_up page_nos hashes))
        λ changed.
          let first_page : ℕ = first_page_of group in
          let last_page : ℕ = min (last_page_of group) snap.page_count in
          and_then
            (collect (
              map (missing_page snap)
                (range_inclusive (next_missing (list_max page_nos) first_page) last_page)))
            λ missing. ok (flatten_options changed ++ missing)

  -- The fine pass over the groups left, then `Done`.
  unfoldable pub fine_pass : HashAlgorithm → List ℕ → Process (Unit {0})
  unfolding changed_pages protocol_violation
  fine_pass alg [] = send_message done
  fine_pass alg (group ∷ rest) = do
    message ← receive
    listed ← expect_page_hashes message
    report (validate_page_hashes_for_group listed.0 listed.1 group)
    pages ← finish (changed_pages alg group listed.0 listed.1)
    send_message (send_pages pages)
    ack ← receive
    page_nos ← expect_pages_ack ack
    report (validate_pages_ack (map page_no_of pages) page_nos)
    fine_pass alg rest

  abbrev check_page_size : ℕ → Process (Unit {0})
  check_page_size replica_page_size =
      if not (snap.page_size == replica_page_size) && not (replica_page_size == 0)
      then send_message (
          error (
            format "page size mismatch: origin={}, replica={}"
              (snap.page_size ∷ replica_page_size ∷ [])))
        >> fail (page_size_mismatch snap.page_size replica_page_size)
      else pure tt

  unfoldable pub negotiate : Process HashAlgorithm
  unfolding protocol_violation
  negotiate = do
    message ← receive
    offer ← expect_hello message
    check_version offer.0
    let negotiated = min offer.0 protocol_version
    alg ← known_algorithm negotiated (from_protocol_version negotiated)
    check_page_size offer.1
    send_message (hello_ack negotiated snap.page_size snap.page_count)
    pure alg

  unfoldable pub coarse_pass : HashAlgorithm → Process (List ℕ)
  unfolding groups_to_refine protocol_violation
  coarse_pass alg = do
    message ← receive
    listed ← expect_group_hashes message
    check_first_group listed.0
    need_fine ← finish (groups_to_refine d alg snap rayon tuning listed.0 listed.1)
    send_message (groups_need_fine need_fine)
    pure need_fine

  unfoldable pub run_with_tuning : Process (Unit {0})
  unfolding negotiate coarse_pass fine_pass
  run_with_tuning = do alg ← negotiate; need_fine ← coarse_pass alg; fine_pass alg need_fine
