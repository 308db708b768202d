-- ===== src/Backends/Lan/Unchanged.antt =====
-- The changes of hosts in LanUci that are refused, as transactions.
use foris_controller.Prelude.{
  String, ◌≡◌, ◌==◌, refl, ◌≢◌, ap, sym, ◌∙◌, true, false, Option, none, some, List, [], ◌∷◌, upper,
  arith,
}
use foris_controller.Exceptions.{Result, ok, err}
use foris_controller.Uci.{UciData}
use foris_controller.Uci.Backend.{
  acquired, released, cleaned, ran, Trace, Oracle, Backend, Uci, go_on, ◌>>=◌, pure, cmdline_args,
  run_uci_command, export_data, with_backend, enter, exit,
}
use foris_controller.Uci.Backend.Quiet.{run_uci_command-state, go_on-state}
use foris_controller.Uci.Backend.Transaction.{opened}
use foris_controller.Uci.Export.Parser.{read}
use foris_controller.Backends.{run_calls, parsed, read_config, Numerals}
use foris_controller.Backends.Guest.Transaction.{lift}
use foris_controller.Backends.Lan.Hosts.{Refusal}
use foris_controller.Backends.Lan.Changes.{
  Plan, refuse, unchanged, change, then_add, then_change, add_host, section_for, changed_host,
  set_dhcp_client, update_dhcp_client,
}

-- The command line of an export, and the backend after it.
abbrev pub export_line : String → String → List String
export_line dir config = cmdline_args dir ("export" ∷ config ∷ [])

abbrev exported : String → Backend → Backend
exported config b = record b { trace = ran (export_line b.config_dir config) none ∷ b.trace }

-- A block that refuses has left the backend as it was.
record Keeps (m : Uci Refusal) : Type 0 where
  at : (b c : Backend) (reason : String) → m b ≡ (ok (some reason), c) → c ≡ b

Keeps-pure : (a : Refusal) → Keeps (pure a)
Keeps-pure a = record { at = λ b c reason h. sym (ap (λ x. x.1) h) }

-- A block that does not refuse, whatever else it does.
record NeverRefuses (m : Uci Refusal) : Type 0 where
  at : (b c : Backend) (reason : String) → m b ≢ (ok (some reason), c)

NeverRefuses-none : NeverRefuses (pure none)
NeverRefuses-none = record { at = λ b c reason h. absurd (ground (arith, ap (λ x. x.0) h)) }

go_on-NeverRefuses {ℓ} :
    {A : Type ℓ} (r : Result A) (d : Backend) (f : A → Uci Refusal) (c : Backend) (reason : String)
    → ((a : A) → NeverRefuses (f a))
    → go_on (r, d) f ≢ (ok (some reason), c)
go_on-NeverRefuses (ok a) d f c reason h e = (h a).at d c reason e
go_on-NeverRefuses (err x) d f c reason h e = absurd (ground (arith, ap (λ y. y.0) e))

NeverRefuses-bind {ℓ} :
    {A : Type ℓ} (m : Uci A) (f : A → Uci Refusal)
    → ((a : A) → NeverRefuses (f a))
    → NeverRefuses (m >>= f)
NeverRefuses-bind m f h = record {
  at = λ b c reason e. go_on-NeverRefuses (m b).0 (m b).1 f c reason h e;
}

NeverRefuses-Keeps : (m : Uci Refusal) → NeverRefuses m → Keeps m
NeverRefuses-Keeps m h = record { at = λ b c reason e. absurd (h.at b c reason e) }

Keeps-lift {ℓ} :
    {A : Type ℓ} (r : Result A) (f : A → Uci Refusal)
    → ((a : A) → Keeps (f a))
    → Keeps (lift r >>= f)
Keeps-lift (ok a) f h = record { at = λ b c reason e. (h a).at b c reason e }
Keeps-lift (err x) f h = record { at = λ b c reason e. absurd (ground (arith, ap (λ y. y.0) e)) }

module _ (strip : String → String) (oracle : Oracle) where
  parsed-state : (o : Option (Result UciData)) (b : Backend) → (parsed strip oracle o b).1 ≡ b
  parsed-state none b = refl
  parsed-state (some r) b = refl

  read_config-state :
      (config : String) (b : Backend)
      → (config == "") ≡ false
      → (read_config strip oracle config b).1 ≡ exported config b
  unfolding read_config export_data
  read_config-state config b h = rw h (
      go_on-state strip oracle (run_uci_command strip oracle ("export" ∷ config ∷ []) true none b).0
        (run_uci_command strip oracle ("export" ∷ config ∷ []) true none b).1 _
        (λ output. parsed-state (read output) _)
      ∙ run_uci_command-state strip oracle ("export" ∷ config ∷ []) true none b)

  -- A configuration is read first.
  after_read :
      (r : Result UciData) (d b c : Backend) (f : UciData → Uci Refusal) (reason : String)
      → go_on (r, d) f ≡ (ok (some reason), c)
      → (shown : UciData) × (f shown d ≡ (ok (some reason), c))
  after_read (ok shown) d b c f reason h = (shown, h)
  after_read (err x) d b c f reason h = absurd (ground (arith, ap (λ y. y.0) h))

  -- Two configurations are read before a decision.
  decides :
      (f : (dhcp_data network_data : UciData) → Uci Refusal) (b c : Backend) (reason : String)
      → ((dhcp_data network_data : UciData) → Keeps (f dhcp_data network_data))
      → (read_config strip oracle "dhcp" >>= λ dhcp_data.
            read_config strip oracle "network" >>= λ network_data. f dhcp_data network_data)
          b
        ≡ (ok (some reason), c)
      → c ≡ exported "network" (exported "dhcp" b)
  decides f b c reason keeps h =
      let (dhcp_data, h') =
        after_read (read_config strip oracle "dhcp" b).0 (read_config strip oracle "dhcp" b).1 b c _
          reason h in
      let d : Backend = (read_config strip oracle "dhcp" b).1 in
      let (network_data, h'') =
        after_read (read_config strip oracle "network" d).0 (read_config strip oracle "network" d).1
          b c _ reason h' in
      (keeps dhcp_data network_data).at (read_config strip oracle "network" d).1 c reason h''
      ∙ read_config-state "network" d refl
      ∙ ap (exported "network") (read_config-state "dhcp" b refl)

  -- Such a block as a transaction commits nothing.
  refused-transaction :
      (config_dir : String) (m : Uci Refusal) (t : Trace) (reason : String)
      → m (opened config_dir t)
        ≡ (ok (some reason), exported "network" (exported "dhcp" (opened config_dir t)))
      → with_backend strip oracle config_dir m t ≡ (
        ok (some reason),
        released
            ∷ ran (export_line config_dir "network") none
            ∷ ran (export_line config_dir "dhcp") none
            ∷ cleaned
            ∷ acquired
            ∷ t,
      )
  refused-transaction config_dir m t reason h = unfold with_backend enter exit in rw h refl

module _ (numerals : Numerals) (strip : String → String) (oracle : Oracle) where
  Keeps-then_add :
      (ip mac hostname : String) (refusal : Refusal)
      → Keeps (then_add numerals strip oracle ip mac hostname refusal)
  Keeps-then_add ip mac hostname (some reason) = Keeps-pure (some reason)
  Keeps-then_add ip mac hostname none = NeverRefuses-Keeps _ (
      NeverRefuses-bind (add_host numerals strip oracle ip mac hostname) _ (λ _. NeverRefuses-none))

  Keeps-then_change :
      (ip mac hostname : String) (plan : Plan)
      → Keeps (then_change numerals strip oracle ip mac hostname plan)
  Keeps-then_change ip mac hostname (refuse reason) = Keeps-pure (some reason)
  Keeps-then_change ip mac hostname unchanged = Keeps-pure none
  Keeps-then_change ip mac hostname (change section macs) = NeverRefuses-Keeps _ (
      NeverRefuses-bind (section_for numerals strip oracle section macs) _ (λ name.
        NeverRefuses-bind (run_calls strip oracle (changed_host name ip mac hostname)) _
          (λ _. NeverRefuses-none)))

  -- A new host that is refused leaves the configuration alone: the transaction runs two exports, no
  -- other command, and gives the reason.
  pub set_dhcp_client-refused :
      (config_dir ip mac hostname : String) (t : Trace) (reason : String) (b : Backend)
      → set_dhcp_client numerals strip oracle ip mac hostname (opened config_dir t)
        ≡ (ok (some reason), b)
      → with_backend strip oracle config_dir
          (set_dhcp_client numerals strip oracle ip mac hostname)
          t
        ≡ (
          ok (some reason),
          released
              ∷ ran (export_line config_dir "network") none
              ∷ ran (export_line config_dir "dhcp") none
              ∷ cleaned
              ∷ acquired
              ∷ t,
        )
  unfolding set_dhcp_client
  set_dhcp_client-refused config_dir ip mac hostname t reason b h =
      refused-transaction strip oracle config_dir _ t reason (
        h
        ∙ ap (λ c. (ok (some reason), c))
            (decides strip oracle _ (opened config_dir t) b reason
              (λ dhcp_shown network_shown. Keeps-lift _ _ (Keeps-then_add ip (upper mac) hostname))
              h))

  -- A change of a host that is refused leaves the configuration alone: the transaction runs two
  -- exports, no other command, and gives the reason.
  pub update_dhcp_client-refused :
      (config_dir ip old_mac mac hostname : String) (t : Trace) (reason : String) (b : Backend)
      → update_dhcp_client numerals strip oracle ip old_mac mac hostname (opened config_dir t)
        ≡ (ok (some reason), b)
      → with_backend strip oracle config_dir
          (update_dhcp_client numerals strip oracle ip old_mac mac hostname)
          t
        ≡ (
          ok (some reason),
          released
              ∷ ran (export_line config_dir "network") none
              ∷ ran (export_line config_dir "dhcp") none
              ∷ cleaned
              ∷ acquired
              ∷ t,
        )
  unfolding update_dhcp_client
  update_dhcp_client-refused config_dir ip old_mac mac hostname t reason b h =
      refused-transaction strip oracle config_dir _ t reason (
        h
        ∙ ap (λ c. (ok (some reason), c))
            (decides strip oracle _ (opened config_dir t) b reason
              (λ dhcp_shown network_shown.
                Keeps-lift _ _ (Keeps-then_change ip (upper mac) hostname))
              h))
