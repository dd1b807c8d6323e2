-- ===== src/Protocol/Replica.antt =====
-- src/protocol/replica.rs: the replica's handler as a process. The SQLite answers are read before
-- the first page is written, so they are those for the connection as it was opened.
use rsqlite_rsync.Base.{
  ℕ, String, ◌-◌, ◌*◌, List, [], ◌∷◌, map, Option, none, some, ◌||◌, length, get_elem?, slice,
  count_up, range_inclusive, min, max, ltb, leb, ◌==◌, if◌then◌else◌,
}
use rsqlite_rsync.Hash.{
  group_size, HashAlgorithm, Digests, hash_page_for, hash_group_for, from_protocol_version,
}
use rsqlite_rsync.Tuning.{SyncTuning}
use rsqlite_rsync.Db.{Connection, Sqlite}
use rsqlite_rsync.Error.{Result, ok, panic, protocol, and_then, collect}
use rsqlite_rsync.Protocol.{Rayon, map_tuned, chunked, groups_per_chunk, u32}
use rsqlite_rsync.Protocol.Messages.{
  Message, PageData, hello, hello_ack, group_hashes, groups_need_fine, page_hashes, send_pages,
  pages_ack, done, error, plain, format, format_debug, protocol_version,
}
use rsqlite_rsync.Protocol.Process.{
  Process, finish, ◌>>=◌, ◌>>◌, send_message, receive, write_to, pure, fail, protocol_violation,
}
use rsqlite_rsync.Protocol.Origin.Checks.{first_page_of, last_page_of}
use rsqlite_rsync.Protocol.Origin.Coarse.{or_panic, page_slice, group_count}

-- `for page in &pages`: write each page; the acknowledgement lists them.
unfoldable pub write_pages : List PageData → Process (Unit {0})
write_pages [] = pure tt
write_pages (page ∷ rest) = write_to page.page_no page.content >> write_pages rest

-- `&all_page_hashes[start_idx..end_idx]` of one group, hashed.
unfoldable pub hash_of_group : Digests → HashAlgorithm → List (List ℕ) → ℕ → ℕ → Result (List ℕ)
hash_of_group d alg all_page_hashes page_count g =
    let start_idx : ℕ = first_page_of (u32 g) - 1 in
    let end_idx : ℕ = min (last_page_of (u32 g)) page_count in
    if leb start_idx end_idx
    then and_then (or_panic (slice all_page_hashes start_idx (end_idx - start_idx)))
        (λ page_hash_slice. ok (hash_group_for d page_hash_slice alg))
    else panic

module _ (d : Digests) (rayon : Rayon) (tuning : SyncTuning) where
  -- The hash of each page of the replica, in order.
  unfoldable pub page_hash_list : HashAlgorithm → List ℕ → ℕ → ℕ → Result (List (List ℕ))
  unfolding page_slice
  page_hash_list alg bytes page_size page_count =
      map_tuned rayon tuning page_count
        (λ page_idx.
          and_then (or_panic (slice bytes (page_idx * page_size) page_size))
            λ content. ok (hash_page_for d content alg))
        (count_up 0 page_count)

  -- At least one group, also for an empty replica.
  unfoldable pub group_hash_list : HashAlgorithm → List (List ℕ) → ℕ → Result (List (List ℕ))
  unfolding hash_of_group
  group_hash_list alg all_page_hashes page_count =
      let num_groups : ℕ = max (group_count page_count) 1 in
      chunked
        (λ start chunk.
          map_tuned rayon tuning (u32 (length chunk * group_size))
            (hash_of_group d alg all_page_hashes page_count) chunk)
        (groups_per_chunk tuning) num_groups 0 (count_up 0 num_groups)

-- The page numbers and hashes that the replica lists for one group.
unfoldable pub group_listing : List (List ℕ) → ℕ → ℕ → Result (List ℕ × List (List ℕ))
group_listing all_page_hashes page_count group =
    let first_page : ℕ = first_page_of group in
    let last_page : ℕ = min (last_page_of group) page_count in
    if leb first_page page_count
    then and_then
        (collect (
          map (λ p. or_panic (get_elem? all_page_hashes (p - 1)))
            (range_inclusive first_page last_page)))
        (λ hashes. ok (range_inclusive first_page last_page, hashes))
    else ok ([], [])

abbrev page_numbers : List PageData → List ℕ
page_numbers = map (λ page. page.page_no)

abbrev expect_hello_ack : Message → Process ℕ
expect_hello_ack (hello_ack version page_size page_count) = pure version
expect_hello_ack (error message) = fail (protocol message)
expect_hello_ack other = protocol_violation (format_debug "expected HelloAck, got {}" other)

abbrev expect_groups_need_fine : Message → Process (List ℕ)
expect_groups_need_fine (groups_need_fine group_indices) = pure group_indices
expect_groups_need_fine (error message) = fail (protocol message)
expect_groups_need_fine other =
    protocol_violation (format_debug "expected GroupsNeedFine, got {}" other)

-- The last message: anything but `Done` is a violation.
abbrev expect_done : String → Message → Process (Unit {0})
expect_done complaint done = pure tt
expect_done complaint other = protocol_violation (plain complaint)

-- The reply for one group; `remaining` groups are still to come.
abbrev expect_pages : ℕ → Process (Unit {0}) → Message → Process (Unit {0})
expect_pages remaining next (send_pages pages) =
    write_pages pages >> (send_message (pages_ack (page_numbers pages)) >> next)
expect_pages remaining next done =
    if ltb 0 remaining
    then protocol_violation
        (format "origin sent Done mid-fine-pass with {} group(s) still pending" (remaining ∷ []))
    else pure tt
expect_pages remaining next (error message) = fail (protocol message)
expect_pages remaining next other =
    protocol_violation (format_debug "expected SendPages or Done, got {}" other)

-- The fine pass over the groups left, then `Done`.
unfoldable pub fine_pass : List (List ℕ) → ℕ → List ℕ → Process (Unit {0})
unfolding group_listing write_pages protocol_violation
fine_pass all_page_hashes page_count [] = do
  message ← receive
  expect_done "expected Done after fine pass" message
fine_pass all_page_hashes page_count (group ∷ rest) =
    let next = fine_pass all_page_hashes page_count rest in
    do
      listed ← finish (group_listing all_page_hashes page_count group)
      send_message (page_hashes listed.0 listed.1)
      message ← receive
      expect_pages (length rest) next message

-- With no group to refine, `Done` must come next.
unfoldable pub after_coarse : List (List ℕ) → ℕ → List ℕ → Process (Unit {0})
unfolding fine_pass
after_coarse all_page_hashes page_count [] = do
  message ← receive
  expect_done "expected Done after empty GroupsNeedFine" message
after_coarse all_page_hashes page_count (group ∷ rest) =
    fine_pass all_page_hashes page_count (group ∷ rest)

-- The version that the origin chose.
abbrev negotiated_algorithm : ℕ → Option HashAlgorithm → Process HashAlgorithm
negotiated_algorithm version none =
    fail (protocol (format "unsupported negotiated protocol version {}" (version ∷ [])))
negotiated_algorithm version (some alg) = pure alg

unfoldable pub check_negotiated : ℕ → Process HashAlgorithm
unfolding from_protocol_version
check_negotiated version =
    if version == 0 || ltb protocol_version version
    then fail (protocol (format "invalid negotiated protocol version {}" (version ∷ [])))
    else negotiated_algorithm version (from_protocol_version version)

module _ (d : Digests) (rayon : Rayon) (tuning : SyncTuning) (api : Sqlite)
    (conn : Connection) where
  unfoldable pub negotiate : ℕ → Process HashAlgorithm
  unfolding check_negotiated protocol_violation
  negotiate page_count = do
    send_message (hello protocol_version conn.page_size page_count)
    ack ← receive
    version ← expect_hello_ack ack
    check_negotiated version

  -- The hashes of the pages, sent group by group.
  unfoldable pub coarse_pass : HashAlgorithm → ℕ → Process (List (List ℕ) × List ℕ)
  unfolding page_hash_list group_hash_list protocol_violation
  coarse_pass alg page_count = do
    bytes ← finish (if page_count == 0 then ok [] else api.serialize conn)
    all_page_hashes ← finish (page_hash_list d rayon tuning alg bytes conn.page_size page_count)
    hashes ← finish (group_hash_list d rayon tuning alg all_page_hashes page_count)
    send_message (group_hashes 0 hashes)
    message ← receive
    need_fine ← expect_groups_need_fine message
    pure (all_page_hashes, need_fine)

  unfoldable pub run_with_tuning : Process (Unit {0})
  unfolding negotiate coarse_pass after_coarse
  run_with_tuning = do
    page_count ← finish (api.page_count conn)
    alg ← negotiate page_count
    coarse ← coarse_pass alg page_count
    after_coarse coarse.0 page_count coarse.1
