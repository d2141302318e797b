-- ===== src/Notify/Client/Command.antt =====
-- A command from the client to the server.
use memory_leak.Prelude.{
  ne→==, ◌≤◌, ℕ, zero, suc, ◌+◌, ◌-◌, ◌%◌, ◌^◌, ◌<◌, ◌≡◌, refl, ap, sym, ◌∙◌, none, some, List, [],
  ◌∷◌, ◌++◌, leb, if◌then◌else◌, length, take, drop, replicate, arith, append_assoc, length-append,
  length-replicate, take-append_of_eq,
}
use memory_leak.Prelude.Int.{pos}
use memory_leak.Prelude.Memory.{copy_in, copy_in-eq_some, copy_out-eq_some}
use memory_leak.Prelude.Run.{ok, ◌>>=◌}
use memory_leak.Notify.Codec.Bytes.{le_bytes}
use memory_leak.Notify.Codec.RoundTrip.{stored, codec-le_bytes}
use memory_leak.Notify.Message.{Msg, Timespec, memory, common_size, len_devid}
use memory_leak.Notify.Message.Ids.{IsString, strlen-string}
use memory_leak.Notify.Message.Memory.{IsHeader}
use memory_leak.Notify.Server.Writes.{copy_in-replace}
use memory_leak.Notify.Registry.{SockaddrIn, Env}
use memory_leak.Notify.Rsa.{Net, rsa_enc}
use memory_leak.Notify.Server.Dump.{dum_msg-header}
use memory_leak.Notify.Client.{srv_pub_path, put_data, cmd_msg, cmd_2_srv}
use memory_leak.Notify.Client.Track.{empty-IsField}

abbrev pub zeros : ℕ → List ℕ
zeros n = replicate {A = ℕ} n 0

zeros_of : (m n : ℕ) → m ≡ n → zeros m ≡ zeros n
zeros_of m n e = ap zeros e

zeros-append : (m n : ℕ) → zeros m ++ zeros n ≡ zeros (m + n)
zeros-append zero n = zeros_of n (zero + n) (omega arith)
zeros-append (suc m) n =
    ap (λ (l : List ℕ). 0 ∷ l) (zeros-append m n) ∙ zeros_of (suc (m + n)) (suc m + n) (omega arith)

drop-zeros : (m n : ℕ) → drop m (zeros n) ≡ zeros (n - m)
drop-zeros zero n = zeros_of n (n - zero) (omega arith)
drop-zeros (suc m) zero = zeros_of zero (zero - suc m) (omega arith)
drop-zeros (suc m) (suc n) = drop-zeros m n ∙ zeros_of (n - m) (suc n - suc m) (omega arith)

-- The message for an id, with a time.
abbrev pub command : (cmd r : ℕ) (id second nano : List ℕ) → Msg
command cmd r id second nano = record {
  type = cmd;
  ifroute = r;
  dev_id = id ++ 0 ∷ zeros (39 - length id);
  ntf_id = zeros 40;
  second = second;
  nano = nano;
  len = zeros 2;
  data_bytes = [];
}

module _ (id : List ℕ) (string : IsString id) (short : length id < len_devid) where
  pub command-IsHeader :
      (cmd r : ℕ) (second nano : List ℕ)
      → length second ≡ 8
      → length nano ≡ 8
      → IsHeader (command cmd r id second nano) id
  command-IsHeader cmd r second nano a b = record {
    dev_field = record {
      string = string;
      pad = zeros (39 - length id);
      layout = refl;
      size = omega (
        arith,
        short,
        length-append id (0 ∷ zeros (39 - length id)),
        length-replicate {A = ℕ} (39 - length id) 0,
      );
    };
    notifier = [];
    ntf_field = empty-IsField;
    second_size = a;
    nano_size = b;
    len_size = refl;
  }

  -- The buffer behind the write of the first two bytes and of the id.
  copy_in-id :
      (cmd r : ℕ)
      → copy_in (zeros 1201) 0 (cmd ∷ r ∷ (id ++ 0 ∷ []))
        ≡ some (memory (command cmd r id (zeros 8) (zeros 8)) ++ zeros 1101)
  copy_in-id cmd r =
      let k = length (id ++ 0 ∷ []) in
      let size : k ≡ length id + 1 = length-append id (0 ∷ []) in
      let first = cmd ∷ r ∷ (id ++ 0 ∷ []) in
      let tail : drop (0 + length first) (zeros 1201) ≡ zeros (39 - length id) ++ zeros 1159 =
        drop-zeros (0 + length first) 1201
        ∙ zeros_of (1201 - (0 + length first)) (39 - length id + 1159) (omega (arith, size, short))
        ∙ sym (zeros-append (39 - length id) 1159) in
      copy_in-eq_some (zeros 1201) 0 first
        (omega (arith, size, short, length-replicate {A = ℕ} 1201 0))
      ∙ ap (λ (l : List ℕ). some (first ++ l)) tail
      ∙ ap (λ (l : List ℕ). some (cmd ∷ r ∷ l))
          (append_assoc id (0 ∷ []) (zeros (39 - length id) ++ zeros 1159)
            ∙ sym (append_assoc id (0 ∷ zeros (39 - length id)) (zeros 1159))
            ∙ sym (append_assoc (id ++ 0 ∷ zeros (39 - length id)) (zeros 58) (zeros 1101)))

  -- The buffer behind the write of the time.
  copy_in-time :
      (cmd r : ℕ) (second nano : List ℕ)
      → length second ≡ 8
      → length nano ≡ 8
      → copy_in (memory (command cmd r id (zeros 8) (zeros 8)) ++ zeros 1101) 82 (second ++ nano)
        ≡ some (memory (command cmd r id second nano) ++ zeros 1101)
  copy_in-time cmd r second nano a b =
      let blank = command cmd r id (zeros 8) (zeros 8) in
      let head : List ℕ = cmd ∷ r ∷ (blank.dev_id ++ zeros 40) in
      let size : length head ≡ 82 = omega (
        arith,
        (command-IsHeader cmd r (zeros 8) (zeros 8) refl refl).dev_field.size,
        length-append blank.dev_id (zeros 40),
      ) in
      ap (λ (l : List ℕ). copy_in (cmd ∷ r ∷ l) 82 (second ++ nano))
        (append_assoc blank.dev_id (zeros 58) (zeros 1101)
          ∙ sym (append_assoc blank.dev_id (zeros 40) (zeros 16 ++ zeros 1103)))
      ∙ ap (λ (n : ℕ). copy_in (head ++ (zeros 16 ++ zeros 1103)) n (second ++ nano)) (sym size)
      ∙ copy_in-replace head (zeros 16) (zeros 1103) (second ++ nano)
          (omega (arith, a, b, length-append second nano))
      ∙ ap some (ap (λ (l : List ℕ). cmd ∷ r ∷ l) (simp append_assoc))

  -- The message of a command without data, from an id that is a string.
  pub cmd_msg-command :
      (cmd r len : ℕ) (more : List ℕ) (t : Timespec)
      → cmd < 2 ^ 8
      → r < 2 ^ 8
      → cmd_msg cmd r none len (id ++ 0 ∷ more) t
        ≡ ok (
          memory (command cmd r id (stored (zeros 8) t.tv_sec 8) (stored (zeros 8) t.tv_nsec 8))
              ++ zeros 1101,
          common_size,
        )
  unfolding cmd_msg put_data le_bytes
  cmd_msg-command cmd r len more t c q =
      let wanted : (if leb len_devid (length id + 1) then len_devid else length id + 1)
          ≡ length id + 1 =
        ground (arith, short) in
      let first : take (length id + 1) (id ++ 0 ∷ more) ≡ id ++ 0 ∷ [] =
        ap (λ (l : List ℕ). take (length id + 1) l) (sym (append_assoc id (0 ∷ []) more))
        ∙ take-append_of_eq (length id + 1) (id ++ 0 ∷ []) more (sym (length-append id (0 ∷ []))) in
      let small_cmd : cmd % 2 ^ 8 ≡ cmd = omega arith in
      let small_r : r % 2 ^ 8 ≡ r = omega arith in
      rw
        (
          strlen-string id more string,
          ◌>>=◌,
          wanted,
          copy_out-eq_some (id ++ 0 ∷ more) (length id + 1)
              (omega (arith, length-append id (0 ∷ more))),
          first,
          small_cmd,
          small_r,
          copy_in-id cmd r,
          (codec-le_bytes (zeros 8) t.tv_sec 8 (omega arith)).0 (omega arith),
          (codec-le_bytes (zeros 8) t.tv_nsec 8 (omega arith)).0 (omega arith),
          copy_in-time cmd r (stored (zeros 8) t.tv_sec 8) (stored (zeros 8) t.tv_nsec 8) refl refl,
        )
        refl

  -- Without the server's public key on file `cmd_2_srv` sends nothing and returns what `close`
  -- returns, for a socket above 0, an id that is a string of less than 40 bytes, and a type and
  -- route that `dum_msg` has a text for: the error is lost.
  pub cmd_2_srv-not_sent :
      (net : Net) (env : Env) (site fd closed cmd r len : ℕ) (more : List ℕ) (addr : SockaddrIn)
      (t : Timespec)
      → net.read_key srv_pub_path ≡ none
      → site ≤ 1500
      → cmd < 5
      → r < 6
      → cmd_2_srv net env site (pos (suc fd)) closed cmd r none len (id ++ 0 ∷ more) addr t
        ≡ ok (closed, none)
  unfolding cmd_2_srv rsa_enc le_bytes
  cmd_2_srv-not_sent net env site fd closed cmd r len more addr t missing named c q =
      let m = command cmd r id (stored (zeros 8) t.tv_sec 8) (stored (zeros 8) t.tv_nsec 8) in
      let header : IsHeader m id =
        command-IsHeader cmd r (stored (zeros 8) t.tv_sec 8) (stored (zeros 8) t.tv_nsec 8) refl
          refl in
      rw
        (
          cmd_msg-command cmd r len more t (omega (arith, c)) (omega (arith, q)),
          ◌>>=◌,
          dum_msg-header m id header (zeros 1101) site c q named,
          missing,
          rsa_enc,
          ne→== (suc fd) 0 (λ e. omega (arith, e)),
        )
        refl
