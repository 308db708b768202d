-- ===== src/Backends/Staging.antt =====
-- What the backends' blocks are made of only stages changes: the calls, the reading of a configuration
-- and the statements that catch an exception.
use foris_controller.Prelude.{
  String, ◌≡◌, refl, Bool, true, false, Option, none, some, List, [], ◌∷◌, arith, if◌then◌else◌,
}
use foris_controller.Exceptions.{Result}
use foris_controller.Uci.{UciData}
use foris_controller.Uci.Backend.{Oracle, Backend, Uci}
use foris_controller.Uci.Backend.Quiet.{
  Stages, Stages-pure, Stages-bind, Stages-add_section, Stages-set_option, Stages-replace_list,
  Stages-export_data,
}
use foris_controller.Uci.Export.Parser.{read}
use foris_controller.Backends.{
  Call, section, option, replaced, run_call, run_calls, parsed, read_config, except_uci,
  except_missing,
}
use foris_controller.Backends.Guest.Transaction.{lift}

pub Stages-lift {ℓ} : {A : Type ℓ} (r : Result A) → Stages (lift r)
Stages-lift r = record { at = λ b. ([], refl, tt, refl) }

module _ {ℓ} {A : Type ℓ} where
  except_uci-state : (a : A) (r : Result A) (b : Backend) → (except_uci a (r, b)).1 ≡ b
  except_uci-state a r b = ground arith

  except_missing-state : (a : A) (r : Result A) (b : Backend) → (except_missing a (r, b)).1 ≡ b
  except_missing-state a r b = ground arith

  -- A statement that changes the result only.
  pub Stages-state :
      {B : Type ℓ} (m : Uci B) (n : Uci A)
      → Stages m
      → ((b : Backend) → (n b).1 ≡ (m b).1)
      → Stages n
  Stages-state m n h same = record { at = λ b. rw (same b) (h.at b) }

  pub Stages-except_uci : (a : A) (m : Uci A) → Stages m → Stages (λ b. except_uci a (m b))
  Stages-except_uci a m h = record { at = λ b. rw (except_uci-state a (m b).0 (m b).1) (h.at b) }

  pub Stages-except_missing : (a : A) (m : Uci A) → Stages m → Stages (λ b. except_missing a (m b))
  Stages-except_missing a m h = record {
    at = λ b. rw (except_missing-state a (m b).0 (m b).1) (h.at b);
  }

module _ (strip : String → String) (oracle : Oracle) where
  Stages-run_call : (call : Call) → Stages (run_call strip oracle call)
  unfolding run_call
  Stages-run_call (section config section_type section_name) =
      Stages-bind _ _ (Stages-add_section strip oracle config section_type (some section_name))
        (λ _. Stages-pure tt)
  Stages-run_call (option config section_name option_name value) =
      Stages-set_option strip oracle config section_name option_name value
  Stages-run_call (replaced config section_name list_name values) =
      Stages-replace_list strip oracle config section_name list_name values

  pub Stages-run_calls : (calls : List Call) → Stages (run_calls strip oracle calls)
  unfolding run_calls
  Stages-run_calls [] = Stages-pure tt
  Stages-run_calls (call ∷ calls) =
      Stages-bind _ _ (Stages-run_call call) (λ _. Stages-run_calls calls)

  Stages-parsed : (o : Option (Result UciData)) → Stages (parsed strip oracle o)
  Stages-parsed none = record { at = λ b. ([], refl, tt, refl) }
  Stages-parsed (some r) = record { at = λ b. ([], refl, tt, refl) }

  pub Stages-read_config : (config : String) → Stages (read_config strip oracle config)
  unfolding read_config
  Stages-read_config config =
      Stages-bind _ _ (Stages-export_data strip oracle (some config))
        (λ output. Stages-parsed (read output))

module _ {ℓ} {A : Type ℓ} where
  pub Stages-if : (b : Bool) (m n : Uci A) → Stages m → Stages n → Stages (if b then m else n)
  Stages-if true m n hm hn = hm
  Stages-if false m n hm hn = hn
