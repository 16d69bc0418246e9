-- ===== src/System/Apply/Cleanup.antt =====
-- `apply_config` leaves no copy of the configuration behind.
use edgekit.Base.{
  ◌⊎◌, inl, inr, refl, os_error, Failure, Bool, false, true, Triple-any, Triple-if, Triple-weaken,
  Triple-raise, Triple-attempt, After, keeps_rules, Triple-bind, Option, none, Triple, List, Keeps,
  ◌≡◌, Exec, String,
}
use edgekit.System.Apply.{
  os_error_if, is_command, write_file, sync_through_file, sync_running, apply_config, unlink,
  sync_path, finally,
}
use edgekit.System.Shell.{Result, run_input, run_checked_input, run_checked, run, required, Host}
use edgekit.System.Wireguard.{interface_exists, bring_up}

module _ (H : Host) (wg_dir interface : String) where
  -- There is no file for the fallback.
  abbrev pub Clean : H.State → Type 0
  Clean s = H.read (sync_path wg_dir interface) s ≡ none

  -- There is no file for the fallback, or the exception is that of writing or removing a file.
  abbrev pub CleanUnless : Failure → H.State → Type 0
  CleanUnless e s = (e ≡ os_error) ⊎ Clean s

  -- Files that were unlinked are gone, and the programs that are started do not make the file.
  pub record Files : Type 0 where
    pub gone :
        (path : String) (s : H.State)
        → H.unlink_fails path s ≡ false
        → H.read path (H.unlink path s) ≡ none
    pub not_made :
        (argv : List String) (input : Option String) (s : H.State)
        → Clean s
        → Clean (H.start argv input s).1

  module _ (files : Files) where
    run_input-Keeps :
        (argv : List String) (input : Option String) → Keeps Clean (run_input H argv input)
    unfolding run_input
    run_input-Keeps argv input = record { at = λ s h. files.not_made argv input s h }

    run-Keeps : (argv : List String) → Keeps Clean (run H argv)
    unfolding run
    run-Keeps argv = run_input-Keeps argv none

    required-Keeps : (r : Result) → Keeps Clean (required H r)
    unfolding required
    required-Keeps r = search (keeps_rules)

    checked-Keeps :
        (argv : List String) (input : Option String) → Keeps Clean (run_checked_input H argv input)
    unfolding run_checked_input
    checked-Keeps argv input = search (keeps_rules, run_input-Keeps, required-Keeps)

    run_checked-Keeps : (argv : List String) → Keeps Clean (run_checked H argv)
    unfolding run_checked
    run_checked-Keeps argv = checked-Keeps argv none

    interface_exists-Keeps : (i : String) → Keeps Clean (interface_exists H i)
    unfolding interface_exists
    interface_exists-Keeps i = search (keeps_rules, run-Keeps)

    bring_up-Keeps : (i : String) → Keeps Clean (bring_up H i)
    unfolding bring_up
    bring_up-Keeps i = search (keeps_rules, run_checked-Keeps, interface_exists-Keeps)

    -- Whatever the state was, there is no file after the cleanup, unless that is what fails.
    unlink-Clean :
        Triple (λ _. Unit {0}) (unlink H (sync_path wg_dir interface)) (λ _. Clean) CleanUnless
    unfolding unlink
    unlink-Clean = record {
      at = λ s h.
          ended (H.unlink_fails (sync_path wg_dir interface) s) _
            (files.gone (sync_path wg_dir interface) s);
    }
      where
        ended :
            (fails : Bool) (s : H.State)
            → (fails ≡ false → Clean s)
            → After (λ _. Clean) CleanUnless (os_error_if H fails, s)
        ended true s gone = inl refl
        ended false s gone = gone refl

    finally-Clean :
        (m : Exec H.State (Unit {0}))
        → Triple
            (λ _. Unit {0})
            (finally H m (unlink H (sync_path wg_dir interface)))
            (λ _. Clean)
            CleanUnless
    unfolding finally
    finally-Clean m =
        Triple-bind (λ _ _. Unit) _ _
          (Triple-attempt (λ _ _. Unit) _ _ (Triple-any m (λ e s. tt))
            (λ e. Triple-bind (λ _. Clean) _ _ unlink-Clean (λ _. Triple-raise e (λ s h. inr h))))
          (λ _. unlink-Clean)

    write_file-CleanUnless :
        (path content : String)
        → Triple Clean (write_file H path content) (λ _ _. Unit {0}) CleanUnless
    unfolding write_file
    write_file-CleanUnless path content = record {
      at = λ s h. ended (H.write_fails path content s) (H.write path content s);
    }
      where
        ended :
            (fails : Bool) (s : H.State)
            → After (λ _ _. Unit {0}) CleanUnless (os_error_if H fails, s)
        ended true s = inl refl
        ended false s = tt

    abbrev Cleans : {A : Type 0} → Exec H.State A → Type 0
    Cleans m = Triple Clean m (λ _. Clean) CleanUnless

    kept : {A : Type 0} (m : Exec H.State A) → Keeps Clean m → Cleans m
    kept m k = Triple-weaken m k (λ s h. h) (λ a s h. h) (λ e s h. inr h)

    through_file-Cleans :
        (stripped : String)
        → Cleans (sync_through_file H (sync_path wg_dir interface) interface stripped)
    unfolding sync_through_file
    through_file-Cleans stripped =
        Triple-bind (λ _ _. Unit) _ _ (write_file-CleanUnless _ stripped) (λ _. finally-Clean _)

    sync_running-Cleans : Cleans (sync_running H (sync_path wg_dir interface) interface)
    unfolding sync_running
    sync_running-Cleans =
        Triple-bind (λ _. Clean) _ _ (kept _ (run_checked-Keeps _))
          (λ r.
            Triple-attempt (λ _. Clean) _ _ (search (keeps_rules, checked-Keeps))
              (λ e.
                Triple-if (is_command e) _ _ (λ _. through_file-Cleans r.stdout)
                  (λ _. Triple-raise e (λ s h. inr h))))

    -- Files that were unlinked being gone, and no program making the file of the fallback: if there was
    -- no such file before `apply_config`, there is none when it returns, and none when it raises another
    -- exception than the OSError of writing or removing a file.
    pub apply_config-Keeps : Triple Clean (apply_config H wg_dir interface) (λ _. Clean) CleanUnless
    unfolding apply_config
    apply_config-Keeps =
        Triple-bind (λ _. Clean) _ _ (kept _ (interface_exists-Keeps interface))
          (λ up.
            Triple-if up _ _ (λ _. sync_running-Cleans) (λ _. kept _ (bring_up-Keeps interface)))
