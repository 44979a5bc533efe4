-- ===== src/Supervisor/Credentials/Tests.antt =====
-- services/supervisor/src/run.ts: runs of the credential checks, and the theorem at an input.
use sproutboat.Base.{◌≡◌, ◌↔◌, refl, true, false, none, some, List, [], ◌∷◌, map}
use sproutboat.Base.Codes.{Text, codes, text_eq, text_eq_inst, ascii_lower}
use sproutboat.Base.Split.{onto_first, split}
use sproutboat.Base.Bag
use sproutboat.Base.Dict
use sproutboat.Supervisor.Credentials.{
  first_of, host_only, register_credential, revoke_credential, allows, verify_binding_call,
}
use sproutboat.Supervisor.Credentials.Calls.{
  Change, register, revoke, apply, hosts_after, May, verify_binding_call_iff,
}

calls : Unit {0}
unfolding onto_first split first_of host_only register_credential revoke_credential allows
    verify_binding_call apply hosts_after Bag.has Dict.get Dict.insert Dict.delete text_eq
    ascii_lower
calls = tt

abbrev hashed : Text → Text
hashed s = 35 ∷ s

abbrev lower : Text → Text
lower = map ascii_lower

separates : (s t : Text) → hashed s ≡ hashed t → s ≡ t
separates s t h = cc h

abbrev changes : List Change
changes =
    register (codes "k1") (codes "A.test:443" ∷ [])
    ∷ register (codes "k2") (codes "b.test" ∷ [])
    ∷ revoke (codes "k2")
    ∷ []

verify_tests :
    (verify_binding_call hashed lower
        (some (codes "k1"))
        (codes "a.TEST:80")
        (apply hashed lower separates changes [])
      ≡ true)
    × (verify_binding_call hashed lower
          (some (codes "k1"))
          (codes "b.test")
          (apply hashed lower separates changes [])
        ≡ false)
    × (verify_binding_call hashed lower
          (some (codes "k2"))
          (codes "b.test")
          (apply hashed lower separates changes [])
        ≡ false)
    × (verify_binding_call hashed lower none
          (codes "b.test")
          (apply hashed lower separates changes [])
        ≡ false)
unfolding calls
verify_tests = (refl, refl, refl, refl)

verify_binding_call_iff_example :
    (verify_binding_call hashed lower
        (some (107 ∷ codes "1"))
        (codes "a.test")
        (apply hashed lower separates changes [])
      ≡ true)
    ↔ May hashed lower separates
        (codes "a.test")
        (hosts_after hashed lower separates (107 ∷ codes "1") changes none)
verify_binding_call_iff_example =
    verify_binding_call_iff hashed lower separates 107 (codes "1") (codes "a.test") changes
