-- ===== src/Certs/Panics.antt =====
-- When the provision of a component's certificate panics.
use fabric_x_operator.Prelude.{String, Option, none, List}
use fabric_x_operator.Go.{GoError, Bytes, Outcome, ok, err}
use fabric_x_operator.Go.Act.{Act}
use fabric_x_operator.Go.Triple.{Triple, Occurs}
use fabric_x_operator.Certs.Client.{
  LibClient, CaEvent, made_home_dir, made_cert_file, wrote_cert_file, Ended, returned, panicked,
}

abbrev Any : List CaEvent → Type 0
Any h = Unit {0}

-- `GetClient` returned a nil client without an error: its temporary directory or file could not be
-- made, or the file could not be written.
pub data NilClient (h : List CaEvent) : Type 0 where
  no_dir : (e : GoError) → Occurs (made_home_dir (err e)) h → NilClient h
  no_file : (e : GoError) → Occurs (made_cert_file (err e)) h → NilClient h
  no_write :
      (file : String) (b : Bytes) (e : GoError)
      → Occurs (wrote_cert_file file b (err e)) h
      → NilClient h

-- A function returns, or it panics on a nil client.
pub data EndsWell {T : Type 0} : Ended T → List CaEvent → Type 0 where
  returns : {h : List CaEvent} (r : Outcome T) → EndsWell (returned r) h
  nil_client : {h : List CaEvent} → NilClient h → EndsWell panicked h

-- A nil client without an error is explained by the history.
abbrev IsExplained : Outcome (Option LibClient) → List CaEvent → Type 0
IsExplained (ok none) h = NilClient h
IsExplained _ h = Unit
