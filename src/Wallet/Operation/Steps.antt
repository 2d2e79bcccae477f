-- ===== src/Wallet/Operation/Steps.antt =====
-- `parseOperation` as a chain of steps, each with its answer.
use ligis.Prelude.{ℕ, ◌/◌, ◌≡◌, refl, inl, inr, ◌⊎◌, Bool, true, false, Option, none, some, arith}
use ligis.Wallet.Types.{
  OperatorPolicy, Domain, Authorization, AuthorizationRequest, BoundFields, ParsedOperation, Result,
  ok, err, ◌>>=◌, ◌>>◌, require,
}
use ligis.Wallet.Operation.Defs.{
  OperationError, is_supported, ParsedDomain, ParsedAuthorization, parse_domain,
  parse_authorization, check_authorization, check_amount, bind_fields, or_throw, parse_operation,
}

module _ {E A : Type 0} where
  pub Result-cases : (r : Result E A) → ((a : A) × (r ≡ ok a)) ⊎ ((e : E) × (r ≡ err e))
  Result-cases (ok a) = inl (a, refl)
  Result-cases (err e) = inr (e, refl)

  pub bind-ok :
      {B : Type 0} (r : Result E A) (f : A → Result E B) (b : B)
      → (r >>= f) ≡ ok b
      → (a : A) × (r ≡ ok a) × (f a ≡ ok b)
  bind-ok (ok a) f b h = (a, refl, h)
  bind-ok (err e) f b h = ground arith

  pub require-ok :
      (c : Bool) (e : E) (r : Result E A) (a : A)
      → (require c e >> r) ≡ ok a
      → (c ≡ true) × (r ≡ ok a)
  require-ok true e r a h = (refl, h)
  require-ok false e r a h = ground arith

pub ok-injective : {E A : Type 0} {a b : A} → ◌≡◌ {A = Result E A} (ok a) (ok b) → a ≡ b
ok-injective h = ground arith

pub or_throw-ok :
    {A : Type 0} (o : Option A) (e : OperationError) (a : A) → or_throw o e ≡ ok a → o ≡ some a
unfolding or_throw
or_throw-ok none e a h = ground arith
or_throw-ok (some b) e a h = ground arith

-- The steps of `parseOperation`, with what each of them answers.
pub record Steps (hash : BoundFields → ℕ) (request : AuthorizationRequest) (policy : OperatorPolicy)
    (now : ℕ) (op : ParsedOperation) : Type 0 where
  pub raw : Domain
  pub d : ParsedDomain
  pub auth : Authorization
  pub a : ParsedAuthorization
  pub usd : ℕ
  pub supported : is_supported request.primary_type ≡ true
  pub has_domain : request.domain ≡ some raw
  pub domain : parse_domain raw policy ≡ ok d
  pub has_auth : request.authorization ≡ some auth
  pub parsed : parse_authorization auth ≡ ok a
  pub checked : check_authorization a policy (now / 1000) ≡ ok tt
  pub amount : check_amount d.asset a.value policy ≡ ok usd
  pub result :
      op
      ≡ record { bound = bind_fields d a; amount_usd = usd; fingerprint = hash (bind_fields d a) }

module _ (hash : BoundFields → ℕ) (request : AuthorizationRequest) (policy : OperatorPolicy)
    (now : ℕ) (op : ParsedOperation) where
  pub parse_operation-Steps :
      parse_operation hash request policy now ≡ ok op → Steps hash request policy now op
  unfolding parse_operation
  parse_operation-Steps h =
      let s1 =
        require-ok (is_supported request.primary_type) OperationError.unsupported_primary_type _ op
          h in
      let s2 = bind-ok (or_throw request.domain OperationError.domain_required) _ op s1.1 in
      let s3 = bind-ok (parse_domain s2.0 policy) _ op s2.2 in
      let s4 =
        bind-ok (or_throw request.authorization OperationError.authorization_required) _ op s3.2 in
      let s5 = bind-ok (parse_authorization s4.0) _ op s4.2 in
      let s6 = bind-ok (check_authorization s5.0 policy (now / 1000)) _ op s5.2 in
      let s7 = bind-ok (check_amount s3.0.asset s5.0.value policy) _ op s6.2 in
      record {
        raw = s2.0;
        d = s3.0;
        auth = s4.0;
        a = s5.0;
        usd = s7.0;
        supported = s1.0;
        has_domain = or_throw-ok request.domain OperationError.domain_required s2.0 s2.1;
        domain = s3.1;
        has_auth =
            or_throw-ok request.authorization OperationError.authorization_required s4.0 s4.1;
        parsed = s5.1;
        checked = s6.1;
        amount = s7.1;
        result = ground arith;
      }

  pub Steps-parse_operation :
      Steps hash request policy now op → parse_operation hash request policy now ≡ ok op
  unfolding parse_operation or_throw
  Steps-parse_operation s = ground (
    arith, s.supported, s.has_domain, s.domain, s.has_auth, s.parsed, s.checked, s.amount, s.result,
  )
