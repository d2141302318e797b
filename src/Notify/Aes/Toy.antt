-- ===== src/Notify/Aes/Toy.antt =====
-- Test data: EVP calls that behave as documented. A context is the record of the calls on it, the
-- cipher leaves the text as it is, and the tag is all zeros.
use memory_leak.Prelude.{ℕ, ◌≡◌, refl, Bool, true, false, List, [], if◌then◌else◌, replicate}
use memory_leak.Prelude.Int.{ℤ, pos}
use memory_leak.Prelude.Same.{same}
use memory_leak.Notify.Evp.{Evp, IsGcm, Stage, fresh, ciphered, sized, keyed, bound, worked, tagged}

abbrev pub zeros : List ℕ
zeros = replicate 16 0

abbrev pub after_key : (key iv : List ℕ) → Stage → Stage
after_key key iv (sized b n) = keyed b key iv
after_key key iv s = s

abbrev pub after_cipher : Bool → Stage → Stage
after_cipher b s = ciphered b

abbrev pub after_ivlen : ℕ → Stage → Stage
after_ivlen n (ciphered b) = sized b n
after_ivlen n s = s

abbrev pub after_aad : List ℕ → Stage → Stage
after_aad aad (keyed b key iv) = bound b key iv aad
after_aad aad s = s

abbrev pub after_text : List ℕ → Stage → List ℕ × Stage
after_text text (bound b key iv aad) = (text, worked b key iv aad text)
after_text text s = ([], s)

abbrev pub after_tag : List ℕ → Stage → Stage
after_tag tag (worked b key iv aad text) = tagged key iv aad text tag
after_tag tag s = s

abbrev pub result : Stage → ℤ
result (tagged key iv aad text tag) = if same tag zeros then pos 1 else pos 0
result s = pos 0

abbrev pub toy : Evp
toy = record {
  Ctx = Stage;
  ctx_new = fresh;
  init_cipher = after_cipher;
  set_ivlen = after_ivlen;
  init_key = λ b. after_key;
  update_aad = λ b. after_aad;
  update = λ b. after_text;
  final = λ b s. (result s, [], s);
  get_tag = λ s. (zeros, s);
  set_tag = after_tag;
}

abbrev pub toy_laws : IsGcm toy
toy_laws = record {
  seal = λ key iv text. text;
  unseal = λ key iv text. text;
  mac = λ key iv aad text. zeros;
  unseal-seal = λ key iv text. refl;
  length-seal = λ key iv text. refl;
  length-unseal = λ key iv text. refl;
  length-mac = λ key iv aad text. refl;
  stage = λ s. s;
  at_new = refl;
  at_cipher = λ b c e. refl;
  at_ivlen = λ b n c e. rw e refl;
  at_key = λ b key iv c e l. rw e refl;
  at_aad = λ b key iv aad c e. rw e refl;
  at_update = λ b key iv aad text c e. rw e (both b text, refl);
  at_seal = λ key iv aad text c e. rw e (refl, refl);
  at_get_tag = λ key iv aad text c e. refl;
  at_set_tag = λ key iv aad text tag c e. rw e refl;
  at_open = λ key iv aad text tag c e. rw e (refl, refl);
}
  where
    both : (b : Bool) (text : List ℕ) → text ≡ (if b then text else text)
    both true text = refl
    both false text = refl

abbrev pub key : List ℕ
key = replicate 32 9

abbrev pub iv : List ℕ
iv = replicate 16 8
