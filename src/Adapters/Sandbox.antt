-- ===== src/Adapters/Sandbox.antt =====
-- The sandboxed executor (executor.py), on a file system that is an argument.
use mathlib.Core.Path.{subst}
use autonomy_harbor.Base.{
  pos, ◌≡◌, ◌⊎◌, refl, inl, inr, String, Bool, true, false, ◌&&◌, Option, none, some, List, [], ◌∷◌,
  ◌<>◌, ◌==◌, arith, eq_iff, length, Result, ok, raised, fail, execution_error, if◌then◌else◌,
  ◌>>=◌, ◌>>◌, Bool-cases, Result-cases, sym,
}
use autonomy_harbor.Json.{null, bool, arr, obj, Json, int, str, Fields, fields, get, bool, arr, obj}
use autonomy_harbor.Json.Print.{utf8}
use autonomy_harbor.Platform.{Platform, text_of}
use autonomy_harbor.Models.{ActionRequest}
use autonomy_harbor.Registry.{or_default}

-- What the executor asks of a file system. A path is the list of its parts, and `resolved` is
-- `(root / resource).resolve()`.
pub record FileSystem (World : Type 0) : Type 0 where
  pub root : List String
  pub resolved : String → World → List String
  pub is_file : List String → World → Bool
  pub read_text : List String → World → Result String
  pub make_parent : List String → World → Result (Unit {0}) × World
  pub write_text : List String → String → World → Result (Unit {0}) × World

-- `candidate.relative_to(root)` returns
abbrev pub is_under : List String → List String → Bool
is_under [] path = true
is_under (r ∷ root) [] = false
is_under (r ∷ root) (s ∷ path) = r == s && is_under root path

abbrev text_in : Option Json → Result String
text_in (some (str s)) = ok s
text_in v = fail execution_error "text_payload_required"

abbrev text_reply : String → Fields
text_reply text = fields (("text", str text) ∷ [])

module _ ⦃p : Platform⦄ {World : Type 0} (files : FileSystem World) where
  unfoldable pub safe_path : String → World → Result (List String)
  safe_path resource world =
      let candidate = files.resolved resource world in
      if is_under files.root candidate
      then ok candidate
      else fail execution_error "sandbox_escape_denied"

  unfoldable pub echo : ActionRequest → Result Fields
  echo request = ok (text_reply (text_of (or_default (get "text" request.payload) (str ""))))

  unfoldable pub read_file : ActionRequest → World → Result Fields
  read_file request world = do
    path ← safe_path request.resource world
    if files.is_file path world then ok tt else fail execution_error "resource_not_found"
    text ← files.read_text path world
    ok (text_reply text)

  abbrev written : String → Result (Unit {0}) → Result Fields
  written text done = do done; ok (fields (("bytes_written", int (pos (length (utf8 text)))) ∷ []))

  -- the write, after the directory has been made
  unfoldable pub write_made :
      List String → String → Result (Unit {0}) × World → Result Fields × World
  write_made path text (raised e, world) = (raised e, world)
  write_made path text (ok tt, world) =
      let (done, world') = files.write_text path text world in (written text done, world')

  abbrev target_of : ActionRequest → World → Result (List String × String)
  target_of request world = do
    path ← safe_path request.resource world
    text ← text_in (get "text" request.payload)
    ok (path, text)

  unfoldable pub write_target : Result (List String × String) → World → Result Fields × World
  write_target (raised e) world = (raised e, world)
  write_target (ok (path, text)) world = write_made path text (files.make_parent path world)

  unfoldable pub sandbox_execute : ActionRequest → World → Result Fields × World
  sandbox_execute request world =
      if request.action == "echo"
      then (echo request, world)
      else if request.action == "read_text"
      then (read_file request world, world)
      else if request.action == "write_text"
      then write_target (target_of request world) world
      else (fail execution_error ("unsupported_action:" <> request.action), world)

  -- The executor writes the text of the payload at the path of the resource, which is under the root.
  pub record IsWritten (request : ActionRequest) (world world' : World) : Type 0 where
    pub text : String
    pub action : request.action ≡ "write_text"
    pub inside : is_under files.root (files.resolved request.resource world) ≡ true
    pub content : get "text" request.payload ≡ some (str text)
    pub made :
        (world' ≡ (files.make_parent (files.resolved request.resource world) world).1)
        ⊎ (world'
            ≡ (files.write_text
                (files.resolved request.resource world)
                text
                (files.make_parent (files.resolved request.resource world) world).1).1)

  write_made-cases :
      (path : List String) (text : String) (made : Result (Unit {0}) × World)
      → let world' = (write_made path text made).1 in
        ((world' ≡ made.1) ⊎ (world' ≡ (files.write_text path text made.1).1))
  unfolding write_made
  write_made-cases path text (raised e, world) = inl refl
  write_made-cases path text (ok tt, world) = inr refl

  text_in-ok : (v : Option Json) (text : String) → text_in v ≡ ok text → v ≡ some (str text)
  text_in-ok none text h = absurd (ground arith)
  text_in-ok (some (str s)) text h = ground arith
  text_in-ok (some null) text h = absurd (ground arith)
  text_in-ok (some (bool b)) text h = absurd (ground arith)
  text_in-ok (some (int n)) text h = absurd (ground arith)
  text_in-ok (some (arr vs)) text h = absurd (ground arith)
  text_in-ok (some (obj d)) text h = absurd (ground arith)

  target_of-ok :
      (request : ActionRequest) (world : World) (path : List String) (text : String)
      → target_of request world ≡ ok (path, text)
      → (is_under files.root (files.resolved request.resource world) ≡ true)
        × (files.resolved request.resource world ≡ path)
        × (get "text" request.payload ≡ some (str text))
  unfolding safe_path
  target_of-ok request world path text h =
      elim (Result-cases (text_in (get "text" request.payload))) [
        | inr (e, bad) ↦ absurd (ground (arith, bad))
        | inl (found, good) ↦
            ground (arith, good, text_in-ok (get "text" request.payload) found good)
      ]

  write_target-IsWritten :
      (request : ActionRequest) (world : World) (target : Result (List String × String))
      → request.action ≡ "write_text"
      → target_of request world ≡ target
      → let world' = (write_target target world).1 in
        ((world' ≡ world) ⊎ IsWritten request world world')
  unfolding write_target
  write_target-IsWritten request world (raised e) action h = inl refl
  write_target-IsWritten request world (ok (path, text)) action h =
      let (inside, same, content) = target_of-ok request world path text h in
      let at = files.resolved request.resource world in
      subst
        (λ (q : List String).
          let world' = (write_made q text (files.make_parent q world)).1 in
          ((world' ≡ world) ⊎ IsWritten request world world'))
        same
        (inr (record {
          text = text;
          action = action;
          inside = inside;
          content = content;
          made = write_made-cases at text (files.make_parent at world);
        }))

  executes_write :
      (request : ActionRequest) (world : World)
      → request.action ≡ "write_text"
      → sandbox_execute request world ≡ write_target (target_of request world) world
  unfolding sandbox_execute
  executes_write request world h = rw (h) refl

  executes_other :
      (request : ActionRequest) (world : World)
      → request.action == "write_text" ≡ false
      → (sandbox_execute request world).1 ≡ world
  unfolding sandbox_execute
  executes_other request world h = ground (arith, h)

  -- An execution leaves the world as it is, unless it writes a text that the payload holds at a path
  -- under the root: then the parent directories are made and the text is written there, and nothing
  -- else is done.
  pub sandbox_execute-cases :
      (request : ActionRequest) (world : World)
      → let world' = (sandbox_execute request world).1 in
        ((world' ≡ world) ⊎ IsWritten request world world')
  sandbox_execute-cases request world = elim (Bool-cases (request.action == "write_text")) [
    | inr other ↦ inl (executes_other request world other)
    | inl writes ↦
        let action = (eq_iff request.action "write_text").0 writes in
        subst (λ (out : Result Fields × World). (out.1 ≡ world) ⊎ IsWritten request world out.1)
          (sym (executes_write request world action))
          (write_target-IsWritten request world (target_of request world) action refl)
  ]
