-- ===== src/Artifact/Backends.antt =====
-- crates/knok/src/backend.rs, with every optional backend and driver.
use knok.Base.{◌≡◌, refl, Bool, true, if◌then◌else◌, String, Option, some, none}
use text.Mathlib.Text.{◌==◌ as str_eq}

pub data Backend : Type 0 where
  llvm_cpu metal_spirv vulkan_spirv cuda : Backend

pub data Driver : Type 0 where
  local_task local_sync metal vulkan cuda_driver : Driver

unfoldable pub driver_name : Driver → String
driver_name local_task = "local-task"
driver_name local_sync = "local-sync"
driver_name metal = "metal"
driver_name vulkan = "vulkan"
driver_name cuda_driver = "cuda"

unfoldable pub backend_name : Backend → String
backend_name llvm_cpu = "llvm-cpu"
backend_name metal_spirv = "metal-spirv"
backend_name vulkan_spirv = "vulkan-spirv"
backend_name cuda = "cuda"

unfoldable pub default_driver : Backend → String
unfolding driver_name
default_driver llvm_cpu = driver_name local_task
default_driver metal_spirv = driver_name metal
default_driver vulkan_spirv = driver_name vulkan
default_driver cuda = driver_name cuda_driver

unfoldable pub backend_from_name : String → Option Backend
backend_from_name name =
    if str_eq name "llvm-cpu"
    then some llvm_cpu
    else if str_eq name "metal-spirv"
    then some metal_spirv
    else if str_eq name "vulkan-spirv"
    then some vulkan_spirv
    else if str_eq name "cuda"
    then some cuda
    else none

unfoldable pub driver_from_name : String → Option Driver
driver_from_name name =
    if str_eq name "local-task"
    then some local_task
    else if str_eq name "local-sync"
    then some local_sync
    else if str_eq name "metal"
    then some metal
    else if str_eq name "vulkan"
    then some vulkan
    else if str_eq name "cuda"
    then some cuda_driver
    else none

unfoldable pub supports_driver : Backend → Driver → Bool
unfolding default_driver driver_name
supports_driver llvm_cpu local_task = true
supports_driver llvm_cpu local_sync = true
supports_driver backend driver = str_eq (default_driver backend) (driver_name driver)

-- A backend and a driver are read back from their names, and a backend supports its default driver.
pub from_name-name :
    (backend : Backend) (driver : Driver)
    → (backend_from_name (backend_name backend) ≡ some backend)
      × (driver_from_name (driver_name driver) ≡ some driver)
      × ((d : Driver) × (driver_from_name (default_driver backend) ≡ some d)
          × (supports_driver backend d ≡ true))
unfolding backend_from_name backend_name driver_from_name driver_name default_driver supports_driver
from_name-name backend driver = (backends backend, drivers driver, defaults backend)
  where
    backends : (b : Backend) → backend_from_name (backend_name b) ≡ some b
    backends llvm_cpu = refl
    backends metal_spirv = refl
    backends vulkan_spirv = refl
    backends cuda = refl

    drivers : (d : Driver) → driver_from_name (driver_name d) ≡ some d
    drivers local_task = refl
    drivers local_sync = refl
    drivers metal = refl
    drivers vulkan = refl
    drivers cuda_driver = refl

    defaults :
        (b : Backend)
        → (d : Driver) × (driver_from_name (default_driver b) ≡ some d)
          × (supports_driver b d ≡ true)
    defaults llvm_cpu = (local_task, refl, refl)
    defaults metal_spirv = (metal, refl, refl)
    defaults vulkan_spirv = (vulkan, refl, refl)
    defaults cuda = (cuda_driver, refl, refl)
