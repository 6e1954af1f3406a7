-- ===== src/Ast/Op.antt =====
-- crates/knok-core/src/ast.rs: the operators and the function-style operations, with their names.
use knok.Base.{ℕ, List, Option, String}
use knok.Ast.Types.{TensorType, AxisSpec, Conv2dOptions, Pool2dOptions}

pub data UnaryOp : Type 0 where
  neg : UnaryOp

pub data BinaryOp : Type 0 where
  add sub mul div : BinaryOp

pub data CallOp : Type 0 where
  abs : CallOp
  all : AxisSpec → CallOp
  argmax : AxisSpec → CallOp
  argmin : AxisSpec → CallOp
  any : AxisSpec → CallOp
  clip : CallOp
  concat : ℕ → CallOp
  conv2d : Conv2dOptions → CallOp
  ceil : CallOp
  detach : CallOp
  diagonal : Option (ℕ × ℕ) → CallOp
  dot : CallOp
  equal : CallOp
  eye : TensorType → CallOp
  exp exp2 exp_m1 floor full_like greater greater_equal : CallOp
  gather : TensorType → ℕ → CallOp
  is_nan less less_equal : CallOp
  arange : TensorType → CallOp
  linspace : TensorType → CallOp
  random_uniform : TensorType → CallOp
  random_int : TensorType → CallOp
  static_random_uniform : TensorType → ℕ → CallOp
  static_random_int : TensorType → ℕ → CallOp
  log log1_p log2 log10 logical_and logical_not logical_or logical_xor inner matmul : CallOp
  max_pool2d : Pool2dOptions → CallOp
  max : AxisSpec → CallOp
  avg_pool2d : Pool2dOptions → CallOp
  mean : AxisSpec → CallOp
  min : AxisSpec → CallOp
  minimum maximum not_equal : CallOp
  flip : List ℕ → CallOp
  move_axis : ℕ → ℕ → CallOp
  pad : TensorType → List ℕ → CallOp
  outer pow : CallOp
  prod : AxisSpec → CallOp
  ptp : AxisSpec → CallOp
  permute : TensorType → List ℕ → CallOp
  permute_dims : List ℕ → CallOp
  reciprocal relu : CallOp
  repeat : ℕ → ℕ → CallOp
  reshape : TensorType → CallOp
  roll : ℕ → ℕ → CallOp
  broadcast : TensorType → CallOp
  rint round sigmoid : CallOp
  slice : TensorType → List ℕ → CallOp
  softmax : AxisSpec → CallOp
  sqrt square : CallOp
  squeeze : TensorType → CallOp
  stack : ℕ → CallOp
  std : AxisSpec → CallOp
  sum : AxisSpec → CallOp
  split : ℕ → List ℕ → CallOp
  swap_axes : ℕ → ℕ → CallOp
  tanh cos sin tan : CallOp
  take : ℕ → ℕ → CallOp
  tile : List ℕ → CallOp
  take_along_axis : ℕ → CallOp
  trace : Option (ℕ × ℕ) → CallOp
  transpose : List ℕ → CallOp
  unsqueeze : TensorType → CallOp
  var : AxisSpec → CallOp
  vecdot : Option ℕ → CallOp
  where_op ones_like zeros_like : CallOp
  graph : String → CallOp

unfoldable pub name : CallOp → String
name abs = "abs"
name (all _) = "all"
name (argmax _) = "argmax"
name (argmin _) = "argmin"
name (any _) = "any"
name clip = "clip"
name (concat _) = "concat"
name (conv2d _) = "conv2d"
name ceil = "ceil"
name detach = "detach"
name (diagonal _) = "diagonal"
name dot = "dot"
name equal = "equal"
name (eye _) = "eye"
name exp = "exp"
name exp2 = "exp2"
name exp_m1 = "expm1"
name floor = "floor"
name full_like = "full_like"
name greater = "greater"
name greater_equal = "greater_equal"
name (gather _ _) = "gather"
name is_nan = "isnan"
name less = "less"
name less_equal = "less_equal"
name (arange _) = "arange"
name (linspace _) = "linspace"
name (random_uniform _) = "random_uniform"
name (random_int _) = "random_int"
name (static_random_uniform _ _) = "static_random_uniform"
name (static_random_int _ _) = "static_random_int"
name log = "log"
name log1_p = "log1p"
name log2 = "log2"
name log10 = "log10"
name logical_and = "logical_and"
name logical_not = "logical_not"
name logical_or = "logical_or"
name logical_xor = "logical_xor"
name inner = "inner"
name matmul = "matmul"
name (max_pool2d _) = "max_pool2d"
name (max _) = "max"
name (avg_pool2d _) = "avg_pool2d"
name (mean _) = "mean"
name (min _) = "min"
name minimum = "minimum"
name maximum = "maximum"
name not_equal = "not_equal"
name (flip _) = "flip"
name (move_axis _ _) = "moveaxis"
name (pad _ _) = "pad"
name outer = "outer"
name pow = "pow"
name (prod _) = "prod"
name (ptp _) = "ptp"
name (permute _ _) = "permute"
name (permute_dims _) = "permute_dims"
name reciprocal = "reciprocal"
name relu = "relu"
name (repeat _ _) = "repeat"
name (reshape _) = "reshape"
name (roll _ _) = "roll"
name (broadcast _) = "broadcast"
name rint = "rint"
name round = "round"
name sigmoid = "sigmoid"
name (slice _ _) = "slice"
name (softmax _) = "softmax"
name sqrt = "sqrt"
name square = "square"
name (squeeze _) = "squeeze"
name (stack _) = "stack"
name (std _) = "std"
name (sum _) = "sum"
name (split _ _) = "split"
name (swap_axes _ _) = "swapaxes"
name tanh = "tanh"
name cos = "cos"
name sin = "sin"
name tan = "tan"
name (take _ _) = "take"
name (tile _) = "tile"
name (take_along_axis _) = "take_along_axis"
name (trace _) = "trace"
name (transpose _) = "transpose"
name (unsqueeze _) = "unsqueeze"
name (var _) = "var"
name (vecdot _) = "vecdot"
name where_op = "where"
name ones_like = "ones_like"
name zeros_like = "zeros_like"
name (graph _) = "graph"
