-- ===== src/Notify/Server/Accept.antt =====
-- What `main` puts into the list for a message that has been read.
use memory_leak.Prelude.{
  ℕ, ◌≤◌, ◌<◌, ◌≡◌, ◌⊎◌, refl, sym, ◌∙◌, false, Option, none, some, List, ◌∷◌, ◌++◌, ◌==◌,
  if◌then◌else◌, length, arith, length-append, Bool-cases, inl, inr, ==→eq, ne→==, eq→==,
}
use memory_leak.Prelude.Run.{fault, ◌>>=◌, Returns}
use memory_leak.Notify.Message.{Msg, memory, msg_ntf, g_ntf_cli, g_cli_ntf, g_cli_srv, g_ntf_srv}
use memory_leak.Notify.Message.Memory.{IsHeader}
use memory_leak.Notify.Registry.{Item, Env}
use memory_leak.Notify.Registry.Fresh.{Grants}
use memory_leak.Notify.Rsa.{Net, Private}
use memory_leak.Notify.Server.{notify, handle_msg}
use memory_leak.Notify.Server.Answer.{
  answer, waiting, queue-memory, with_vector, length-with_vector, answer_with_key-answer,
  answer_with_key-overrun,
}
use memory_leak.Notify.Server.Dump.{dum_msg-header, dum_msg-unknown}

-- The message that a message lets the server send: a notification is passed on, a client's request
-- is answered, all else is left.
abbrev pub outgoing : Msg → Option Msg
outgoing m =
    if m.ifroute == g_cli_srv
    then some (answer m)
    else if m.ifroute == g_ntf_cli
    then (if m.type == msg_ntf then some m else none)
    else if m.ifroute == g_cli_ntf
    then (if m.type == msg_ntf then some m else none)
    else none

abbrev pub with_waiting : Option Msg → List Item → List Item
with_waiting none fwd = fwd
with_waiting (some m) fwd = waiting m ∷ fwd

module _ (net : Net) (prv : Private) (env : Env) (grants : Grants env) where
  module _ (m : Msg) (id : List ℕ) (h : IsHeader m id) (rest : List ℕ) (fwd : List Item) where
    pub handle_msg-overrun :
        (site : ℕ)
        → m.type < 5
        → site ≤ 1500
        → m.ifroute ≡ g_cli_srv
        → length rest < 48
        → handle_msg net prv env site (memory m ++ rest) (length (memory m)) fwd ≡ fault
    unfolding handle_msg
    handle_msg-overrun site t s e full =
        rw
          (
            dum_msg-header m id h rest site t (omega (arith, e)) s,
            ◌>>=◌,
            ne→== m.ifroute g_ntf_cli (λ f. omega (arith, f, e)),
            ne→== m.ifroute g_cli_ntf (λ f. omega (arith, f, e)),
            eq→== m.ifroute g_cli_srv e,
          )
          (answer_with_key-overrun net prv env grants m id h rest fwd full)

    -- A notification is passed on, if it is one.
    notify-passes :
        Returns (notify net prv env m.type (memory m ++ rest) (length (memory m)) fwd) λ r.
          (length r.0 ≡ length (memory m ++ rest))
          × (r.1 ≡ with_waiting (if m.type == msg_ntf then some m else none) fwd)
    unfolding notify
    notify-passes = elim (Bool-cases (m.type == msg_ntf)) [
      | inl e ↦ (
        (memory m ++ rest, waiting m ∷ fwd),
        rw (e, queue-memory net prv env grants m id h rest fwd) refl,
        (refl, rw e refl),
      )
      | inr e ↦ ((memory m ++ rest, fwd), rw e refl, (refl, rw e refl))
    ]

    pub handle_msg-outgoing :
        (site : ℕ)
        → m.type < 5
        → m.ifroute < 6
        → site ≤ 1500
        → (m.ifroute ≡ g_cli_srv → 48 ≤ length rest)
        → Returns
            (handle_msg net prv env site (memory m ++ rest) (length (memory m)) fwd)
            λ r. (length r.0 ≡ length (memory m ++ rest)) × (r.1 ≡ with_waiting (outgoing m) fwd)
    unfolding handle_msg
    handle_msg-outgoing site t r s room = elim (Bool-cases (m.ifroute == g_ntf_cli)) [
      | inl e ↦
          let not_srv : (m.ifroute == g_cli_srv) ≡ false =
            ne→== m.ifroute g_cli_srv (λ f. omega (arith, f, ==→eq m.ifroute g_ntf_cli e)) in
          rw (dum_msg-header m id h rest site t r s, ◌>>=◌, e, not_srv) notify-passes
      | inr e ↦ elim (Bool-cases (m.ifroute == g_cli_ntf)) [
        | inl e' ↦
            let not_srv : (m.ifroute == g_cli_srv) ≡ false =
              ne→== m.ifroute g_cli_srv (λ f. omega (arith, f, ==→eq m.ifroute g_cli_ntf e')) in
            rw (dum_msg-header m id h rest site t r s, ◌>>=◌, e, e', not_srv) notify-passes
        | inr e' ↦ elim (Bool-cases (m.ifroute == g_cli_srv)) [
          | inl e'' ↦
              let room' : 48 ≤ length rest = room (==→eq m.ifroute g_cli_srv e'') in
              rw (dum_msg-header m id h rest site t r s, ◌>>=◌, e, e', e'')
                (
                  (with_vector net prv env grants m id h rest fwd, waiting (answer m) ∷ fwd),
                  answer_with_key-answer net prv env grants m id h rest fwd room',
                  (
                    length-with_vector net prv env grants m id h rest fwd room'
                        ∙ sym (length-append (memory m) rest),
                    refl,
                  ),
                )
          | inr e'' ↦
              let no_ntf : (m.ifroute == g_ntf_srv) ≡ false =
                ne→== m.ifroute g_ntf_srv (λ f. omega (arith, f, r)) in
              rw (dum_msg-header m id h rest site t r s, ◌>>=◌, e, e', e'', no_ntf)
                ((memory m ++ rest, fwd), refl, (refl, refl))
        ]
      ]
    ]

    -- A type or a route that `dum_msg` has no text for is beyond its arrays.
    pub handle_msg-unknown :
        (site : ℕ)
        → (5 ≤ m.type) ⊎ (6 ≤ m.ifroute)
        → handle_msg net prv env site (memory m ++ rest) (length (memory m)) fwd ≡ fault
    unfolding handle_msg
    handle_msg-unknown site u = rw (dum_msg-unknown m id h rest site u, ◌>>=◌) refl
