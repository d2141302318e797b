-- ===== src/Notify/Aes/RoundTrip.antt =====
-- `msg_aes_enc` and `msg_aes_dec` against the wire format.
use memory_leak.Prelude.{
  ℕ, ◌+◌, ◌-◌, ◌≤◌, ◌<◌, ◌≡◌, ◌⊎◌, refl, ap, sym, ◌∙◌, Bool, true, false, Option, none, some, List,
  [], ◌∷◌, ◌++◌, if◌then◌else◌, length, take, drop, arith, length-take_of_le, length-take,
  length-append, take-append_of_eq, lt→ltb, le→ltb,
}
use memory_leak.Prelude.Int.{pos, negsuc}
use memory_leak.Prelude.Same.{same, same_refl}
use memory_leak.Prelude.Run.{ok, ◌>>=◌, Returns}
use memory_leak.Notify.Evp.{Evp, IsGcm}
use memory_leak.Notify.Message.{or_empty, max_msg}
use memory_leak.Notify.Aes.{Coded, key_bytes, verdict, msg_aes_enc, msg_aes_dec, aes_iv_bytes}
use memory_leak.Notify.Aes.Gcm.{prefixed, checked}
use memory_leak.Notify.Aes.Wire.{
  wire, three_writes, sealed, encode-sealed, text_of, tag_of, decode-verdict, wire-text,
}

-- `*lenout`, and the bytes that it counts.
abbrev pub count : Option ℕ → ℕ
count none = 0
count (some n) = n

abbrev pub output : Coded → List ℕ
output r = take (count r.lenout) (or_empty r.buffer)

-- A null argument, or a limit that does not hold the tag and the marker, is an error: `err` is 1,
-- and the output block and the length are left alone.
pub msg_aes_enc-rejects :
    (e : Evp) (input buffer key iv : Option (List ℕ)) (lenin : ℕ) (lenout : Option ℕ) (lim : ℕ)
    → (input ≡ none)
      ⊎ ((buffer ≡ none) ⊎ ((key ≡ none) ⊎ ((iv ≡ none) ⊎ ((lenout ≡ none) ⊎ (lim < lenin + 17)))))
    → msg_aes_enc e input buffer key iv lenin lenout lim
      ≡ ok (record { err = 1; buffer = buffer; lenout = lenout })
unfolding msg_aes_enc
msg_aes_enc-rejects e none buffer key iv lenin lenout lim h = refl
msg_aes_enc-rejects e (some i) none key iv lenin lenout lim h = refl
msg_aes_enc-rejects e (some i) (some b) none iv lenin lenout lim h = refl
msg_aes_enc-rejects e (some i) (some b) (some k) none lenin lenout lim h = refl
msg_aes_enc-rejects e (some i) (some b) (some k) (some v) lenin none lim h = refl
msg_aes_enc-rejects e (some i) (some b) (some k) (some v) lenin (some l) lim h =
    rw (lt→ltb lim (lenin + 1 + aes_iv_bytes) (short h)) refl
  where
    short :
        (some i ≡ none)
          ⊎ ((some b ≡ none)
              ⊎ ((some k ≡ none) ⊎ ((some v ≡ none) ⊎ ((some l ≡ none) ⊎ (lim < lenin + 17)))))
        → lim < lenin + 1 + aes_iv_bytes
    short h = ground arith

module _ (e : Evp) (g : IsGcm e) (key iv : List ℕ) (k : length key ≡ key_bytes)
    (v : length iv ≡ 16) where
  pub enc-sealed :
      (input buffer : List ℕ) (n old lim : ℕ)
      → n ≤ length input
      → n + 17 ≤ lim
      → lim ≤ length buffer
      → msg_aes_enc e (some input) (some buffer) (some key) (some iv) n (some old) lim
        ≡ ok (record {
          err = 0;
          buffer = some (sealed e g buffer key iv (take n input));
          lenout = some (n + aes_iv_bytes + 1);
        })
  unfolding msg_aes_enc
  enc-sealed input buffer n old lim inside room fits =
      rw (le→ltb lim (n + 1 + aes_iv_bytes) (omega arith))
        (encode-sealed e g input buffer key iv n inside k v (omega arith))

  pub sealed-wire :
      (input buffer : List ℕ) (n : ℕ)
      → n ≤ length input
      → n + 17 ≤ length buffer
      → take (n + 17) (sealed e g buffer key iv (take n input)) ≡ wire e g key iv (take n input)
  sealed-wire input buffer n inside room =
      let a = g.seal key iv (take n input) in
      let b = g.mac key iv iv a in
      let la : length a ≡ n =
        g.length-seal key iv (take n input) ∙ length-take_of_le n input inside in
      let lb : length b ≡ 16 = g.length-mac key iv iv a in
      ap (λ (m : ℕ). take m (sealed e g buffer key iv (take n input))) (omega arith)
      ∙ three_writes e g buffer a b (3 ∷ []) (omega arith)

  -- With documented EVP calls, a key of 32 and a vector of 16 bytes, and room for 17 bytes more
  -- than the text in the limit and in the block, `msg_aes_enc` does not fault, returns 0, and puts
  -- on the wire the ciphertext, its tag, and the byte 3.
  pub msg_aes_enc-wire :
      (input buffer : List ℕ) (n old lim : ℕ)
      → n ≤ length input
      → n + 17 ≤ lim
      → lim ≤ length buffer
      → Returns
          (msg_aes_enc e (some input) (some buffer) (some key) (some iv) n (some old) lim)
          λ r.
            (r.err ≡ 0) × (r.lenout ≡ some (n + 17)) × (output r ≡ wire e g key iv (take n input))
  msg_aes_enc-wire input buffer n old lim inside room fits = (
    _,
    enc-sealed input buffer n old lim inside room fits,
    (
      refl,
      ap {B = Option ℕ} (λ (m : ℕ). some m) (omega arith),
      ap (λ (m : ℕ). take m (sealed e g buffer key iv (take n input))) (omega arith)
          ∙ sealed-wire input buffer n inside (omega arith),
    ),
  )

  -- What a caller sees of a verdict.
  verdict-if :
      (b : Bool) (n : ℕ) (text plain : List ℕ)
      → length text ≡ n
      → ((verdict e (if b then pos n else negsuc 0, prefixed e g text plain)).err
          ≡ (if b then 0 else 1))
        × (output (verdict e (if b then pos n else negsuc 0, prefixed e g text plain))
            ≡ (if b then text else []))
  unfolding verdict
  verdict-if true n text plain l =
      (refl, take-append_of_eq n text (drop (0 + length text) plain) (sym l))
  verdict-if false n text plain l = (refl, refl)

  -- Whether a message of `lenin` bytes carries the tag of its text.
  abbrev genuine : (x : List ℕ) (lenin : ℕ) → Bool
  genuine x lenin = same (tag_of e g x lenin) (g.mac key iv iv (text_of e g x lenin))

  module _ (x plain : List ℕ) (lenin old lim : ℕ) (least : 17 ≤ lenin) (most : lenin ≤ max_msg + 1)
      (inside : lenin ≤ length x) (room : lenin - 17 ≤ lim) (fits : lim ≤ length plain) where
    dec-verdict :
        msg_aes_dec e (some x) (some plain) (some key) (some iv) lenin (some old) lim
        ≡ ok (
            verdict e (
              checked e g key iv (text_of e g x lenin) (tag_of e g x lenin),
              prefixed e g (g.unseal key iv (text_of e g x lenin)) plain,
            ))
    unfolding msg_aes_dec
    dec-verdict =
        rw
          (
            le→ltb (max_msg + 1) lenin most,
            le→ltb lenin (aes_iv_bytes + 1) least,
            le→ltb lim (lenin - 1 - aes_iv_bytes) (omega arith),
          )
          (decode-verdict e g x plain key iv lenin least inside k v (omega arith))

    -- With documented EVP calls, a key of 32 and a vector of 16 bytes, on each message of at least 17 and at most MAX_MSG + 1 bytes, with room for its text,
    -- `msg_aes_dec` does not fault; it returns 0 and hands out the text decrypted if the tag is that
    -- of the text, and else returns 1 and a length of 0.
    pub msg_aes_dec-verdict :
        Returns (msg_aes_dec e (some x) (some plain) (some key) (some iv) lenin (some old) lim) λ r.
          (r.err ≡ (if genuine x lenin then 0 else 1))
          × (output r ≡ (if genuine x lenin then g.unseal key iv (text_of e g x lenin) else []))
    msg_aes_dec-verdict =
        let c = text_of e g x lenin in
        (
          _,
          dec-verdict,
          verdict-if (genuine x lenin) (length c) (g.unseal key iv c) plain
              (g.length-unseal key iv c),
        )

  pub length-sealed :
      (input buffer : List ℕ) (n : ℕ)
      → n ≤ length input
      → n + 17 ≤ length buffer
      → n + 17 ≤ length (sealed e g buffer key iv (take n input))
  length-sealed input buffer n inside room =
      let a = g.seal key iv (take n input) in
      let b = g.mac key iv iv a in
      omega (
        arith,
        length-take (n + 17) (sealed e g buffer key iv (take n input)),
        ap (λ (l : List ℕ). length l) (sealed-wire input buffer n inside room),
        length-append (a ++ b) (3 ∷ []),
        length-append a b,
        g.length-seal key iv (take n input),
        length-take_of_le n input inside,
        g.length-mac key iv iv a,
      )

  -- With documented EVP calls, a key of 32 and a vector of 16 bytes, what `msg_aes_enc` puts on the
  -- wire with room for it, of at most MAX_MSG + 1 bytes,
  -- `msg_aes_dec` with the same key and vector takes back: it returns 0 and the text.
  pub msg_aes_round_trip :
      (input buffer plain : List ℕ) (n old old' lim lim' : ℕ)
      → n ≤ length input
      → n + 17 ≤ lim
      → lim ≤ length buffer
      → n + 16 ≤ max_msg
      → n ≤ lim'
      → lim' ≤ length plain
      → Returns
          (msg_aes_enc e (some input) (some buffer) (some key) (some iv) n (some old) lim >>= λ r.
            msg_aes_dec e r.buffer
              (some plain)
              (some key)
              (some iv)
              (count r.lenout)
              (some old')
              lim')
          λ r. (r.err ≡ 0) × (output r ≡ take n input)
  msg_aes_round_trip input buffer plain n old old' lim lim' inside room fits small room' fits' =
      let x = sealed e g buffer key iv (take n input) in
      let text = g.seal key iv (take n input) in
      let lx = length-sealed input buffer n inside (omega arith) in
      let (t, m) =
        wire-text e g x key iv (take n input) n (length-take_of_le n input inside)
          (sealed-wire input buffer n inside (omega arith)) in
      let end : n + aes_iv_bytes + 1 - 1 - aes_iv_bytes ≡ n = omega arith in
      let valid : genuine x (n + aes_iv_bytes + 1) ≡ true =
        rw (end, t, m) (same_refl (g.mac key iv iv text)) in
      let (r, run, seen) =
        msg_aes_dec-verdict x plain (n + aes_iv_bytes + 1) old' lim' (omega arith) (omega arith)
          (omega arith) (omega arith) fits' in
      (
        r,
        rw (enc-sealed input buffer n old lim inside room fits, ◌>>=◌) run,
        (seen.0 ∙ rw valid refl, seen.1 ∙ rw (valid, end, t) (g.unseal-seal key iv (take n input))),
      )

  -- The block that `msg_aes_dec` leaves, of a message that carries what was sealed.
  pub dec-wire :
      (x plain text : List ℕ) (old lim : ℕ)
      → take (length text + 17) x ≡ wire e g key iv text
      → length text + 17 ≤ length x
      → length text + 16 ≤ max_msg
      → length text ≤ lim
      → lim ≤ length plain
      → msg_aes_dec e (some x) (some plain) (some key) (some iv) (length text + 17) (some old) lim
        ≡ ok (record {
          err = 0;
          buffer = some (text ++ drop (0 + length text) plain);
          lenout = some (length text);
        })
  unfolding verdict
  dec-wire x plain text old lim w inside small room fits =
      let n = length text in
      let (t, m) = wire-text e g x key iv text n refl w in
      let end : n + 17 - 1 - aes_iv_bytes ≡ n = omega arith in
      dec-verdict x plain (n + 17) old lim (omega arith) (omega arith) inside (omega arith) fits
      ∙ rw
          (
            end,
            t,
            m,
            same_refl (g.mac key iv iv (g.seal key iv text)),
            g.unseal-seal key iv text,
            g.length-seal key iv text,
          )
          refl
