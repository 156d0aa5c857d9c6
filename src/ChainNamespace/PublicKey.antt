-- ===== src/ChainNamespace/PublicKey.antt =====
-- `getPubKeyFromPemData`.
use fabric_x_operator.Prelude.{
  ℕ, zero, suc, ◌≤◌, ◌<◌, ◌≡◌, refl, ap, false, inl, inr, Bool-cases, Option, none, some, ◌==◌,
  eq_iff, if◌then◌else◌, length, arith,
}
use fabric_x_operator.Go.{Bytes, Outcome, ok, err, new_error}
use fabric_x_operator.Go.Triple.{Outcome-cases}
use fabric_x_operator.Kube.{Certificate, PemBlock}
use fabric_x_operator.ChainNamespace.Env.{Env}

module _ (env : Env) where
  open env.pki use {decode, encode, parse_certificate}

  abbrev public_key_pem : Bytes → Bytes
  public_key_pem b = encode (record { type = "PUBLIC KEY"; bytes = b })

  -- The body of the loop for one block: the key that it returns, if it does not go on.
  unfoldable pub key_of_block : PemBlock → Option Bytes
  key_of_block block =
      if block.type == "CERTIFICATE"
      then elim (parse_certificate block.bytes) [
        | err e ↦ none
        | ok cert ↦ elim (env.marshal_public_key cert) [
          | err e ↦ none
          | ok b ↦ some (public_key_pem b)
        ]
      ]
      else if block.type == "PUBLIC KEY"
      then elim (env.parse_public_key block.bytes) [
        | err e ↦ none
        | ok u ↦ some (public_key_pem block.bytes)
      ]
      else none

  abbrev no_key : Outcome Bytes
  no_key = err (new_error "no ECDSA public key in pem file")

  -- `return key, nil`, or the next turn of the loop.
  abbrev or_again : Option Bytes → Outcome Bytes → Outcome Bytes
  or_again none again = again
  or_again (some key) again = ok key

  -- What the loop does with the answer of `pem.Decode`; `again` is the rest of the loop.
  abbrev pub at_block : (Bytes → Outcome Bytes) → Option (PemBlock × Bytes) → Outcome Bytes
  at_block again none = no_key
  at_block again (some (block, rest)) = or_again (key_of_block block) (again rest)

  -- The loop, for at most so many blocks.
  unfoldable pub find_key : ℕ → Bytes → Outcome Bytes
  find_key zero pem = no_key
  find_key (suc n) pem = at_block (λ rest. find_key n rest) (decode pem)

  -- `getPubKeyFromPemData`: a block takes at least one byte, so there are no more blocks than bytes.
  unfoldable pub get_pub_key_from_pem_data : Bytes → Outcome Bytes
  unfolding find_key
  get_pub_key_from_pem_data pem = find_key (length pem) pem

  -- `pem.Decode` takes the block that it returns off its input.
  abbrev pub DecodeShrinks : Type 0
  DecodeShrinks =
      (pem rest : Bytes) (block : PemBlock)
      → decode pem ≡ some (block, rest)
      → length rest < length pem

  -- A block holds this key: that of a certificate, or a public key, written as a block of its own.
  pub data IsKeyOf (block : PemBlock) (key : Bytes) : Type 0 where
    of_certificate :
        (cert : Certificate) (b : Bytes)
        → block.type ≡ "CERTIFICATE"
        → parse_certificate block.bytes ≡ ok cert
        → env.marshal_public_key cert ≡ ok b
        → key ≡ encode (record { type = "PUBLIC KEY"; bytes = b })
        → IsKeyOf block key
    of_public_key :
        block.type ≡ "PUBLIC KEY"
        → env.parse_public_key block.bytes ≡ ok tt
        → key ≡ encode (record { type = "PUBLIC KEY"; bytes = block.bytes })
        → IsKeyOf block key

  abbrev pub HoldsNoKey : PemBlock → Type 0
  HoldsNoKey block = (key : Bytes) → ¬ IsKeyOf block key

  -- The first block of the file that holds a key holds this one.
  pub data FirstKey (key : Bytes) : Bytes → Type 0 where
    here :
        {pem : Bytes} (block : PemBlock) (rest : Bytes)
        → decode pem ≡ some (block, rest)
        → IsKeyOf block key
        → FirstKey key pem
    later :
        {pem : Bytes} (block : PemBlock) (rest : Bytes)
        → decode pem ≡ some (block, rest)
        → HoldsNoKey block
        → FirstKey key rest
        → FirstKey key pem

  -- No block of the file holds a key.
  pub data NoKey : Bytes → Type 0 where
    at_end : {pem : Bytes} → decode pem ≡ none → NoKey pem
    beyond :
        {pem : Bytes} (block : PemBlock) (rest : Bytes)
        → decode pem ≡ some (block, rest)
        → HoldsNoKey block
        → NoKey rest
        → NoKey pem

  -- What a result says of the file.
  abbrev pub IsRight : Bytes → Outcome Bytes → Type 0
  IsRight pem (ok key) = FirstKey key pem
  IsRight pem (err e) = NoKey pem

  key_of_block-IsKeyOf :
      (block : PemBlock) (key : Bytes) → key_of_block block ≡ some key → IsKeyOf block key
  unfolding key_of_block
  key_of_block-IsKeyOf block key k = elim (Bool-cases (block.type == "CERTIFICATE")) [
    | inl c ↦ elim (Outcome-cases (parse_certificate block.bytes)) [
      | inl (cert, p) ↦ elim (Outcome-cases (env.marshal_public_key cert)) [
        | inl (b, m) ↦
            of_certificate cert b ((eq_iff block.type "CERTIFICATE").0 c) p m (grind arith)
        | inr (e, m) ↦ grind arith
      ]
      | inr (e, p) ↦ grind arith
    ]
    | inr c ↦ elim (Bool-cases (block.type == "PUBLIC KEY")) [
      | inl d ↦ elim (Outcome-cases (env.parse_public_key block.bytes)) [
        | inl (u, p) ↦ of_public_key ((eq_iff block.type "PUBLIC KEY").0 d) p (grind arith)
        | inr (e, p) ↦ grind arith
      ]
      | inr d ↦ grind arith
    ]
  ]

  key_of_block-HoldsNoKey : (block : PemBlock) → key_of_block block ≡ none → HoldsNoKey block
  unfolding key_of_block
  key_of_block-HoldsNoKey block k key (of_certificate cert b t p m _) =
      let c = (eq_iff block.type "CERTIFICATE").1 t in grind arith
  key_of_block-HoldsNoKey block k key (of_public_key t p _) =
      let c = (eq_iff block.type "PUBLIC KEY").1 t in
      let d : (block.type == "CERTIFICATE") ≡ false = ap (λ s. s == "CERTIFICATE") t in grind arith

  skip-IsRight :
      (pem : Bytes) (block : PemBlock) (rest : Bytes) (r : Outcome Bytes)
      → decode pem ≡ some (block, rest)
      → HoldsNoKey block
      → IsRight rest r
      → IsRight pem r
  skip-IsRight pem block rest (ok key) d n f = later block rest d n f
  skip-IsRight pem block rest (err e) d n f = beyond block rest d n f

  or_again-IsRight :
      (pem : Bytes) (block : PemBlock) (rest : Bytes) (again : Outcome Bytes) (o : Option Bytes)
      → decode pem ≡ some (block, rest)
      → key_of_block block ≡ o
      → IsRight rest again
      → IsRight pem (or_again o again)
  or_again-IsRight pem block rest again none d k f =
      skip-IsRight pem block rest again d (key_of_block-HoldsNoKey block k) f
  or_again-IsRight pem block rest again (some key) d k f =
      here block rest d (key_of_block-IsKeyOf block key k)

  at_block-IsRight :
      (f : Bytes → Outcome Bytes) (pem : Bytes) (o : Option (PemBlock × Bytes))
      → decode pem ≡ o
      → ((block : PemBlock) (rest : Bytes) → o ≡ some (block, rest) → IsRight rest (f rest))
      → IsRight pem (at_block f o)
  at_block-IsRight f pem none d right = at_end d
  at_block-IsRight f pem (some (block, rest)) d right =
      or_again-IsRight pem block rest (f rest) (key_of_block block) d refl (right block rest refl)

  no_block :
      (pem : Bytes) (o : Option (PemBlock × Bytes))
      → decode pem ≡ o
      → ((block : PemBlock) (rest : Bytes) → ¬ (o ≡ some (block, rest)))
      → NoKey pem
  no_block pem none d never = at_end d
  no_block pem (some (block, rest)) d never = elim (never block rest refl) [ ]

  module _ (shrinks : DecodeShrinks) where
    -- Fuel from the length of the input on is enough.
    find_key-IsRight : (n : ℕ) (pem : Bytes) → length pem ≤ n → IsRight pem (find_key n pem)
    unfolding find_key
    find_key-IsRight zero pem l =
        no_block pem (decode pem) refl (λ block rest e. omega (arith, shrinks pem rest block e))
    find_key-IsRight (suc n) pem l =
        at_block-IsRight _ pem (decode pem) refl
          λ block rest e. find_key-IsRight n rest (omega (arith, shrinks pem rest block e))

    -- For every input, `getPubKeyFromPemData` returns the key of the first PEM block that holds one,
    -- written as a block "PUBLIC KEY": the public key of a certificate that parses and whose key can
    -- be marshaled, or the bytes of a public key that parses. It returns an error only if no block
    -- holds a key. `pem.Decode` is assumed to take the block that it returns off its input.
    pub get_pub_key_from_pem_data_lem : (pem : Bytes) → IsRight pem (get_pub_key_from_pem_data pem)
    unfolding get_pub_key_from_pem_data
    get_pub_key_from_pem_data_lem pem = find_key-IsRight (length pem) pem (omega arith)
