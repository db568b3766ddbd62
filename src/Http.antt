-- ===== src/Http.antt =====
-- Requests and replies of the API handlers (backend/internal/api/response.go). A body that is no
-- valid JSON is `none`; a reply is its status code with an error text or with the value that is
-- encoded as JSON.
use yuchen_panel.Common.{ℕ, String, Bool, true, false}

pub data Method : Type 0 where
  get post put delete other : Method

pub data Reply (B : Type 0) : Type 0 where
  error : ℕ → String → Reply B
  reply : ℕ → B → Reply B

-- `methodNotAllowed`
abbrev pub method_not_allowed : {B : Type 0} → Reply B
method_not_allowed = error 405 "method not allowed"

abbrev pub bad_request : {B : Type 0} → String → Reply B
bad_request e = error 400 e

abbrev pub not_found : {B : Type 0} → Reply B
not_found = error 404 "not found"

-- whether a reply reports success
abbrev pub is_success : {B : Type 0} → Reply B → Bool
is_success (error _ _) = false
is_success (reply _ _) = true
