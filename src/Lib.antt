-- ===== src/Lib.antt =====
-- The notification system of notify.system, the shared memory queue of common, and what the
-- programs under cluster share.
--
-- A UDP server (notify.system/server.c) keeps a table of registered devices, records where each
-- device's datagrams come from, and forwards messages to the recorded addresses. One thread takes
-- messages in and puts what is to be forwarded into a list, another one records addresses and sends
-- the list; both decrypt what arrives. Messages are encrypted with AES-256-GCM or RSA. gen_list.c is
-- a byte buffer that grows, for the same server. Independently of that, common/shared_data.c lets
-- writer processes hand bytes to one reader process through a shared memory region.
-- cluster/common/lcs_common.c has the sorts, the directory listings and the sums of call counts of
-- the reporting programs. A state is a record, an operation is a function from the state and its
-- arguments to a Run: a value, an exit of the process, or a fault, which stands for undefined
-- behaviour such as an access out of bounds.
--
-- Files:
--   Prelude: lists, Boolean tests, integers, byte blocks, Run, and arrays whose segments are
--     rearranged.
--   GenList: notify.system/gen_list.c (add_item_traffic, add_item_gen_list, get_data_gen_list).
--     A GEN_LIST is its counters and the bytes behind its header; malloc and realloc are an
--     Allocator. Children: Grow and Bytes (steps of an add), Queue (contents), Session (sequences).
--   SharedData: common/shared_data.c, shared_data.h (ntt_write_shm, ntt_read_shm). Children: Open
--     (init_service, ntt_open_shm, ntt_unlink_shm), Exit (check_exiit, set_exit_group, the reader's
--     process id, a round of read_body_thread), Channel (what a region promises), Refine, Rounds,
--     Handover (one process creates the region and writes, another opens it and reads).
--     The sizes of the lock types are a record Layout; results of taking a lock are arguments.
--   Notify.Codec: notify.system/msg_notify.c, uint64_2_arr to arr_2_uint16.
--   Notify.Hash: hash_func.
--   Notify.Message: the message format of msg_notify.h, strlen and strncmp, put_time_to_msg.
--   Notify.Registry: list_reg_dev, reg_to_table, hl_track_msg, put_pubkey_msg. A bucket is its
--     counter and its list; an item whose message has been freed has none. Children: View (the map
--     of addresses), Fresh (new items), Register, Calls (against the map), Faults.
--   Notify.Evp: the EVP calls of libcrypto as a parameter, with what is documented of them.
--   Notify.Aes: gcm_encrypt, gcm_decrypt, msg_aes_enc, msg_aes_dec.
--   Notify.Load: load_reg_list; strtok is modelled on the block.
--   Notify.Ev: ev_aes_enc, ev_aes_dec.
--   Notify.Rsa: get_cli_pub, rsa_enc, rsa_dec. sendto, the reading of a key file and
--     RSA_public_encrypt are a parameter Net, the server's private key a parameter Private.
--   Notify.Forward: add_to_item_list, send_to_dst. Children: Delivery (one message), Batch (lists).
--   Notify.Message.Dump: dum_msg.
--   Notify.Server: notify.system/server.c, a round of each of the two loops. Children: Dump (when
--     dum_msg stays inside its arrays), Writes, Answer and Accept (what main queues), Open (decryption),
--     Relay (a round of main), Loop (many rounds), Deliver (a round of the sending thread), Scenario
--     (a message through both), Waiting (the flag g_waiting).
--   Notify.Client: send_msg_track, get_aes256_key, cmd_2_srv. Children: Track (from a client's
--     tracking message to the server's table), Command (the message that cmd_2_srv builds), Request
--     (from there to the server's list).
--   Quicksort: quicksort/quicksort.c. Children: Order, Shuffle (exchanges), Scan,
--     Cross and Partition (the parts of partition), Sorted (quicksort), Segments
--     (quick_sort_non_recursive).
--   Cluster.Sort: lcs_partition_ext, lcs_quick_sort_ext of cluster/common/lcs_common.c for any compare
--     function, and the sorts of cluster/quicksort/main.c, which take the same steps. Children: Order
--     (compare functions that order), Scan, Cross and Partition (the parts of the partition), Sorted,
--     Segments and Worklist (the segments that wait), Drain (quick_sort_non_recursive), Agreement.
--   Cluster.Strings: the order of strcmp. Cluster.Ints: the instance of cluster/quicksort/main.c.
--   Cluster.Slots: quick_sort_non_recursive_improve of cluster/quicksort/main.c. Children: Places (what
--     stands in its arrays), Same (it does what quick_sort_non_recursive does).
--   Cluster.Merge: lcs_merge_counting_cb, lcs_merge005_list. Children: Totals (of a counter over the
--     rows of a key), Steps (the rows of one key), Runs (where they end), Groups, Report.
--   Cluster.Directory: lcs_comm_subdir, lcs_comm_list_files. Children: Entries (their loops), Names.
--   Cluster.Details: the table of cluster/shmcreate_audd/main.c (lcs_audd_shmwrite) and its lookup in
--     cluster/A_000008_05m/a_000008.c. Children: Places (what writes leave), Lookup (what is found).
--   Cluster.Collect: lcs_hcollect005_sum. Children: Decimal (%d), Lines (what is written is read),
--     Freed (how the function ends).
--
-- Bounds: counters of type unsigned long long wrap at 2^64 and a hash at 2^32, as written out in
-- the definitions; pointers have 8 bytes, and a HASH_ITEM 96. Sizes that the callers pass as int
-- are numbers that are not negative, except where the code tests for it. The loops of
-- notify.system and common are structural recursion on the list or the bytes they walk, so that
-- no fuel is needed. Those of quicksort.c run on fuel: partition takes one round more than its
-- last index, and quicksort needs one more than there are elements. Those of Cluster.Sort need as
-- many rounds as there are elements; the loops over rows and lines of Cluster.Merge and
-- Cluster.Collect are given one more than there are rows or bytes.
--
-- Calls that hold the same mutex are one step each. Logging is left out, but for dum_msg, whose
-- reads and writes can go wrong: the rest changes no state. The size of the file and function names
-- that dum_msg is given is an argument, site.
-- Assumptions are hypotheses: IsGcm (EVP calls as documented), IsKeyPair (RSA keys that belong
-- together), Grants (memory is granted and realloc leaves blocks in place).
-- Not modelled: the setup of sockets, threads and signals of the server, the client and the
-- notifier; the logging library, which is that of Open vSwitch; of lcs_common.c what runs shell
-- commands or opens files; the other programs under cluster, which join files, SQL databases and
-- shared memory; the notes and the vendored code.
pub mod Prelude
pub mod GenList
pub mod SharedData
pub mod Notify
pub mod Quicksort
pub mod Cluster
